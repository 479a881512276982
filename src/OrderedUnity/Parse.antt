-- ===== src/OrderedUnity/Parse.antt =====
-- `_parse` of tools/cdb_ordered_unity.py: an entry's arguments, told apart by what they are to the unity.
use nvim_dot_files.Prelude.{
  ℕ, suc, Bool, true, false, ◌||◌, ◌&&◌, List, [], ◌∷◌, ◌++◌, Option, none, some, nat_eq, ltb,
  length, Eq-number, Eq-list, ◌==◌, if◌then◌else◌, drop,
}
use nvim_dot_files.Prelude.Texts.{Text, codes}
use nvim_dot_files.Prelude.Result.{Result, ok, err, ◌>>=◌}
use nvim_dot_files.Prelude.Sets.{mem, some_of}
use nvim_dot_files.IndexGraph.Reader.{Bytes}
use nvim_dot_files.TierMerge.Tokens.{starts_with, Classes}
use nvim_dot_files.OrderedUnity.Flags.{starts_with_any, strip_write_only_flags}

-- Why an entry stays as it is.
pub data Reason : Type 0 where
  unsupported_include_path unsupported_indirect_input missing_search_operand : Reason
  missing_forced_operand definitions_precede_forced_input one_source_expected : Reason
  unsupported_undef unsupported_content ambiguous_membership unavailable : Reason
  member_not_absolute exceeds_source_budget mixed_original : Reason
  ambiguous_membership_key candidate_budgets : Reason
  unsupported_directive : Text → Reason
  os_error unicode_error : Reason

-- What `os`, `os.path`, `pathlib`, `hashlib` and the file system answer.
pub record Host : Type 0 where
  pub normcase : Text → Text
  pub absolute : Text → Text
  pub normpath : Text → Text
  pub join : Text → Text → Text
  pub is_absolute : Text → Bool
  pub is_file : Text → Bool
  pub path_text : Text → Text
  pub file_name : Text → Text
  pub suffix : Text → Text
  pub read_bytes : Text → Option Bytes
  pub sha256 : Bytes → Text
  pub classes : Classes

pub record Entry : Type 0 where
  pub directory : Text
  pub file : Text
  pub arguments : List Text

unfoldable pub key : Host → Text → Text
key host path = host.normcase (host.absolute (host.normpath path))

unfoldable pub slashes : Text → Text
slashes [] = []
slashes (c ∷ cs) = (if nat_eq c 92 then b'/' else c) ∷ slashes cs

-- `any(char in value for char in ('"', '\r', '\n', '\0'))`
unfoldable pub breaks_include : ℕ → Bool
breaks_include c = nat_eq c 34 || (nat_eq c 13 || (nat_eq c 10 || nat_eq c 0))

unfoldable pub include_path : Text → Result Reason Text
unfolding slashes some_of breaks_include
include_path path =
    if some_of breaks_include (slashes path)
    then err unsupported_include_path
    else ok (slashes path)

abbrev pub search_flags : List Text
search_flags =
    codes "-I"
    ∷ codes "-isystem"
    ∷ codes "-iquote"
    ∷ codes "-idirafter"
    ∷ codes "-F"
    ∷ codes "-iframework"
    ∷ []

-- `flag + '='` for the flags but the first
abbrev pub search_prefixes : List Text
search_prefixes =
    codes "-isystem="
    ∷ codes "-iquote="
    ∷ codes "-idirafter="
    ∷ codes "-F="
    ∷ codes "-iframework="
    ∷ []

unfoldable pub is_indirect : Text → Bool
unfolding starts_with mem starts_with_any
is_indirect arg =
    starts_with (codes "@") arg
    || (mem arg (codes "--config" ∷ codes "-ivfsoverlay" ∷ [])
        || starts_with_any (codes "--config=" ∷ codes "-ivfsoverlay=" ∷ []) arg)

unfoldable pub is_joined_search : Text → Bool
unfolding starts_with_any
is_joined_search arg =
    (starts_with_any (codes "-I" ∷ codes "-F" ∷ []) arg && ltb 2 (length arg))
    || starts_with_any search_prefixes arg

-- `next(flag for flag in _FORCED if arg == flag or arg.startswith(flag + '='))`, and whether the operand
-- is joined to it.
abbrev pub forced_flags : List Text
forced_flags = codes "-include-pch" ∷ codes "-include" ∷ codes "-imacros" ∷ []

unfoldable pub forced_from : List Text → Text → Option (Text × Bool)
unfolding starts_with
forced_from [] arg = none
forced_from (flag ∷ flags) arg =
    let rest = forced_from flags arg in
    if arg == flag
    then some (flag, false)
    else if starts_with (flag ++ codes "=") arg
    then some (flag, true)
    else rest

-- The branches of the loop, in their order.
pub data Kind : Type 0 where
  indirect source search joined_search plain : Kind
  forced joined_forced : Text → Kind

abbrev kind_of_forced : Option (Text × Bool) → Kind
kind_of_forced none = plain
kind_of_forced (some (flag, false)) = forced flag
kind_of_forced (some (flag, true)) = joined_forced flag

-- Whether an argument is the entry's source file; `wanted` is the key of that.
unfoldable pub names_source : Host → Text → Text → Text → Bool
unfolding key
names_source host directory wanted arg = key host (host.join directory arg) == wanted

unfoldable pub kind_of : Host → Text → Text → Text → Kind
unfolding is_indirect names_source mem is_joined_search forced_from
kind_of host directory wanted arg =
    if is_indirect arg
    then indirect
    else if names_source host directory wanted arg
    then source
    else if mem arg search_flags
    then search
    else if is_joined_search arg
    then joined_search
    else kind_of_forced (forced_from forced_flags arg)

pub record Parsed : Type 0 where
  pub common : List Text
  pub search : List (List Text)
  pub definitions : List Text
  pub source_count : ℕ

abbrev pub source_mark : Text
source_mark = codes "<SOURCE>"

abbrev pub with_common : List Text → Parsed → Parsed
with_common tokens p = record {
  common = p.common ++ tokens;
  search = p.search;
  definitions = p.definitions;
  source_count = p.source_count;
}

abbrev pub with_source : Parsed → Parsed
with_source p = record {
  common = p.common ++ source_mark ∷ [];
  search = p.search;
  definitions = p.definitions;
  source_count = suc p.source_count;
}

abbrev pub with_search : List Text → Parsed → Parsed
with_search tokens p = record {
  common = p.common;
  search = p.search ++ tokens ∷ [];
  definitions = p.definitions;
  source_count = p.source_count;
}

abbrev pub with_definition : Parsed → Text → Parsed
with_definition p path = record {
  common = p.common;
  search = p.search;
  definitions = p.definitions ++ path ∷ [];
  source_count = p.source_count;
}

-- Whether a forced include is a header of definitions.
unfoldable pub is_definitions : Host → Text → Text → Bool
unfolding starts_with_any
is_definitions host flag path =
    flag == codes "-include"
    && (starts_with_any (codes "Definitions." ∷ codes "SharedDefinitions." ∷ [])
          (host.file_name path)
        && host.suffix path == codes ".h")

-- A forced input, with its path and its tokens.
unfoldable pub force : Host → Text → Text → Text → List Text → Parsed → Result Reason Parsed
unfolding is_definitions include_path
force host directory flag path tokens p =
    let full = host.absolute (host.join directory path) in
    if is_definitions host flag full
    then (include_path (host.path_text full) >>= λ shown. ok (with_definition p shown))
    else if p.definitions == []
    then ok (with_common tokens p)
    else err definitions_precede_forced_input

-- `arg.split('=', 1)[1]`, of an argument that starts with the flag and the sign
unfoldable pub operand_of : Text → Text → Text
operand_of flag arg = drop (suc (length flag)) arg

unfoldable pub parse_loop : Host → Text → Text → List Text → Parsed → Result Reason Parsed
unfolding kind_of force operand_of
parse_loop host directory wanted [] p = ok p
parse_loop host directory wanted (arg ∷ []) p = elim (kind_of host directory wanted arg) [
  | indirect ↦ err unsupported_indirect_input
  | source ↦ ok (with_source p)
  | search ↦ err missing_search_operand
  | joined_search ↦ ok (with_search (arg ∷ []) p)
  | forced flag ↦ err missing_forced_operand
  | joined_forced flag ↦ force host directory flag (operand_of flag arg) (arg ∷ []) p
  | plain ↦ ok (with_common (arg ∷ []) p)
]
parse_loop host directory wanted (arg ∷ next ∷ args) p = elim (kind_of host directory wanted arg) [
  | indirect ↦ err unsupported_indirect_input
  | source ↦ parse_loop host directory wanted (next ∷ args) (with_source p)
  | search ↦ parse_loop host directory wanted args (with_search (arg ∷ next ∷ []) p)
  | joined_search ↦ parse_loop host directory wanted (next ∷ args) (with_search (arg ∷ []) p)
  | forced flag ↦
      force host directory flag next (arg ∷ next ∷ []) p >>= parse_loop host directory wanted args
  | joined_forced flag ↦
      force host directory flag (operand_of flag arg) (arg ∷ []) p
      >>= parse_loop host directory wanted (next ∷ args)
  | plain ↦ parse_loop host directory wanted (next ∷ args) (with_common (arg ∷ []) p)
]

abbrev pub nothing_parsed : Parsed
nothing_parsed = record { common = []; search = []; definitions = []; source_count = 0 }

abbrev one_source : Parsed → Result Reason Parsed
one_source p = if nat_eq p.source_count 1 then ok p else err one_source_expected

unfoldable pub parse : Host → Entry → Result Reason Parsed
unfolding strip_write_only_flags key parse_loop
parse host entry =
    parse_loop host entry.directory (key host (host.join entry.directory entry.file))
      (strip_write_only_flags entry.arguments) nothing_parsed
    >>= one_source
