-- ===== src/Argv/Posix.antt =====
-- `shlex.split(command, posix=True)`, which `split_posix_command_line` of tools/cdb_argv.py calls: the
-- state machine of the standard library's `shlex.read_token`, with whitespace as the only separator.
pub mod RoundTrip
use nvim_dot_files.Prelude.{
  ℕ, Bool, true, false, not, ◌&&◌, ◌||◌, List, [], ◌∷◌, ◌++◌, Option, none, some, if◌then◌else◌,
  ◌==◌, Eq-number, Eq-list,
}
use nvim_dot_files.Prelude.Texts.{Text}
use nvim_dot_files.Prelude.Result.{Result, ok, err}

-- The messages of the `ValueError`s of tools/cdb_argv.py and of the library it calls; the last two name an
-- entry. `stuck` is no Python value: a loop was given too few rounds.
pub data ArgvFault : Type 0 where
  no_closing_quotation no_escaped_character stuck : ArgvFault
  lacks_command lacks_arguments : ℕ → ArgvFault

pub data Mark : Type 0 where
  white escape quotation plain : Mark

abbrev pub mark_of : ℕ → Mark
mark_of c =
    if c == b' ' || (c == 9 || (c == 13 || c == 10))
    then white
    else if c == 92
    then escape
    else if c == 39 || c == b'"'
    then quotation
    else plain

-- `state`: between tokens, in one, within a quotation, or behind a backslash, to return to a quotation if
-- there is one.
pub data State : Type 0 where
  between word : State
  within : ℕ → State
  behind : Option ℕ → State

abbrev pub emit : Text → Result ArgvFault (List Text) → Result ArgvFault (List Text)
emit token (ok tokens) = ok (token ∷ tokens)
emit token (err e) = err e

abbrev is_none : Text → Bool
is_none [] = true
is_none (c ∷ token) = false

-- A token of no characters is one only if it was quoted.
abbrev pub emit_if : Text → Bool → Result ArgvFault (List Text) → Result ArgvFault (List Text)
emit_if token quoted rest = if is_none token && not quoted then rest else emit token rest

-- What an escaped character adds to the token: within quotation marks, the backslash stays before a
-- character that needs none.
abbrev unescape : Option ℕ → ℕ → Text
unescape none c = c ∷ []
unescape (some q) c = if c == 92 || c == q then c ∷ [] else 92 ∷ c ∷ []

abbrev return_to : Option ℕ → State
return_to none = word
return_to (some q) = within q

unfoldable pub read_tokens : State → Text → Bool → Text → Result ArgvFault (List Text)
read_tokens between token quoted [] = ok []
read_tokens word token quoted [] = emit_if token quoted (ok [])
read_tokens (within q) token quoted [] = err no_closing_quotation
read_tokens (behind q) token quoted [] = err no_escaped_character
read_tokens between token quoted (c ∷ rest) = elim (mark_of c) [
  | white ↦ read_tokens between [] false rest
  | escape ↦ read_tokens (behind none) [] false rest
  | quotation ↦ read_tokens (within c) [] false rest
  | plain ↦ read_tokens word (c ∷ []) false rest
]
read_tokens word token quoted (c ∷ rest) = elim (mark_of c) [
  | white ↦ emit_if token quoted (read_tokens between [] false rest)
  | escape ↦ read_tokens (behind none) token quoted rest
  | quotation ↦ read_tokens (within c) token quoted rest
  | plain ↦ read_tokens word (token ++ c ∷ []) quoted rest
]
read_tokens (within q) token quoted (c ∷ rest) = elim (c == q) [
  | true ↦ read_tokens word token true rest
  | false ↦ elim (c == 92 && q == b'"') [
    | true ↦ read_tokens (behind (some q)) token true rest
    | false ↦ read_tokens (within q) (token ++ c ∷ []) true rest
  ]
]
read_tokens (behind q) token quoted (c ∷ rest) =
    read_tokens (return_to q) (token ++ unescape q c) quoted rest

unfoldable pub split_posix_command_line : Text → Result ArgvFault (List Text)
unfolding read_tokens
split_posix_command_line command = read_tokens between [] false command
