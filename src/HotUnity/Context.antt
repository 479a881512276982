-- ===== src/HotUnity/Context.antt =====
-- `compile_context_key` of tools/build_hot_super_unity_cdb.py: what two entries share that may share a unity.
use nvim_dot_files.Prelude.{
  ℕ, zero, suc, List, [], ◌∷◌, ◌++◌, nat_eq, ltb, if◌then◌else◌, Eq-number, Eq-list,
}
use nvim_dot_files.Prelude.Texts.{Text, codes}
use nvim_dot_files.OrderedUnity.Flags.{strip_write_only_flags}
use nvim_dot_files.OrderedUnity.Parse.{Entry, source_mark}
use nvim_dot_files.OrderedUnity.Json.{unit_escape, joined}
use nvim_dot_files.HotUnity.Paths.{source_positions}

-- `normalized[position] = '<SOURCE>'`
unfoldable pub set_source : ℕ → List Text → List Text
set_source position [] = []
set_source zero (arg ∷ args) = source_mark ∷ args
set_source (suc position) (arg ∷ args) = arg ∷ set_source position args

-- A character as `json.dumps(..., ensure_ascii=False)` writes it.
unfoldable pub plain_char : ℕ → Text
unfolding unit_escape
plain_char c =
    if nat_eq c 34
    then 92 ∷ 34 ∷ []
    else if nat_eq c 92
    then 92 ∷ 92 ∷ []
    else if nat_eq c 10
    then 92 ∷ b'n' ∷ []
    else if nat_eq c 13
    then 92 ∷ b'r' ∷ []
    else if nat_eq c 9
    then 92 ∷ b't' ∷ []
    else if nat_eq c 12
    then 92 ∷ b'f' ∷ []
    else if nat_eq c 8
    then 92 ∷ b'b' ∷ []
    else if ltb c 32
    then unit_escape c
    else c ∷ []

unfoldable pub plain_chars : Text → Text
unfolding plain_char
plain_chars [] = []
plain_chars (c ∷ t) = plain_char c ++ plain_chars t

unfoldable pub plain_string : Text → Text
unfolding plain_chars
plain_string t = 34 ∷ plain_chars t ++ 34 ∷ []

unfoldable pub plain_strings : List Text → List Text
unfolding plain_string
plain_strings [] = []
plain_strings (t ∷ ts) = plain_string t ∷ plain_strings ts

unfoldable pub payload : Text → List Text → Text
unfolding plain_string plain_strings joined
payload directory args =
    b'{' ∷ plain_string (codes "directory")
    ++ b':' ∷ plain_string directory
    ++ b',' ∷ plain_string (codes "arguments")
    ++ b':' ∷ b'[' ∷ joined (plain_strings args)
    ++ b']' ∷ b'}' ∷ []

-- The source is replaced where it stands once.
abbrev with_source_mark : List ℕ → List Text → List Text
with_source_mark [] args = args
with_source_mark (position ∷ []) args = set_source position args
with_source_mark (position ∷ other ∷ positions) args = args

-- `digest` is the first 16 digits of the SHA-256 of a text in UTF-8.
unfoldable pub compile_context_key : (Text → Text) → (Text → Text) → Entry → Text
unfolding strip_write_only_flags source_positions set_source payload
compile_context_key normcase digest entry =
    let args = strip_write_only_flags entry.arguments in
    digest
      (payload entry.directory (with_source_mark (source_positions normcase args entry.file) args))
