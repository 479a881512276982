-- ===== src/Argv/Windows.antt =====
-- `split_windows_command_line` of tools/cdb_argv.py: Go's rules for a Windows command line.
pub mod Runs
pub mod RoundTrip
pub mod Total
use nvim_dot_files.Prelude.{
  ℕ, zero, suc, ◌+◌, ◌/◌, ◌%◌, Bool, true, false, not, ◌&&◌, ◌||◌, List, [], ◌∷◌, ◌++◌, Option,
  none, some, length, nat_eq, if◌then◌else◌, ◌==◌, Eq-number,
}
use nvim_dot_files.Prelude.Texts.{Text}

-- The characters that the rules tell apart.
pub data Char : Type 0 where
  blank quote backslash other : Char

abbrev pub char_of : ℕ → Char
char_of c =
    if c == b' ' || c == 9
    then blank
    else if c == b'"'
    then quote
    else if c == 92
    then backslash
    else other

-- `"\\" * n`
abbrev pub slashes : ℕ → Text
slashes zero = []
slashes (suc n) = 92 ∷ slashes n

-- `command[index + 1] == '"'`, where there is one.
abbrev pub starts_quote : Text → Bool
starts_quote [] = false
starts_quote (c ∷ rest) = c == b'"'

abbrev pub tail : Text → Text
tail [] = []
tail (c ∷ rest) = rest

-- `value`, `in_quotes` and `backslashes`
pub record Argument : Type 0 where
  pub value : Text
  pub in_quotes : Bool
  pub backslashes : ℕ

-- A quotation mark that opens or closes, with `doubled` for one that follows at once within quotes.
abbrev pub toggle : Argument → Bool → Argument
toggle a doubled = record {
  value =
      a.value ++ slashes (a.backslashes / 2) ++ (if a.in_quotes && doubled then b'"' ∷ [] else []);
  in_quotes = not a.in_quotes;
  backslashes = 0;
}

-- A quotation mark that is escaped.
abbrev pub escaped : Argument → Argument
escaped a = record {
  value = a.value ++ slashes (a.backslashes / 2) ++ b'"' ∷ [];
  in_quotes = a.in_quotes;
  backslashes = 0;
}

abbrev pub slash : Argument → Argument
slash a = record a { backslashes = suc a.backslashes }

abbrev pub literal : ℕ → Argument → Argument
literal c a = record {
  value = a.value ++ slashes a.backslashes ++ c ∷ [];
  in_quotes = a.in_quotes;
  backslashes = 0;
}

abbrev pub finished : Argument → Text
finished a = a.value ++ slashes a.backslashes

-- The loop of `_split_windows_argument`: `skip` says that the next character was consumed already.
unfoldable pub argument_loop : Bool → Argument → Text → Text × Text
argument_loop skip a [] = (finished a, [])
argument_loop true a (c ∷ rest) = argument_loop false a rest
argument_loop false a (c ∷ rest) = elim (char_of c) [
  | blank ↦ elim a.in_quotes [
    | true ↦ argument_loop false (literal c a) rest
    | false ↦ (finished a, rest)
  ]
  | quote ↦ elim (nat_eq (a.backslashes % 2) 0) [
    | true ↦ argument_loop (a.in_quotes && starts_quote rest) (toggle a (starts_quote rest)) rest
    | false ↦ argument_loop false (escaped a) rest
  ]
  | backslash ↦ argument_loop false (slash a) rest
  | other ↦ argument_loop false (literal c a) rest
]

abbrev pub new_argument : Argument
new_argument = record { value = []; in_quotes = false; backslashes = 0 }

unfoldable pub split_windows_argument : Text → Text × Text
unfolding argument_loop
split_windows_argument command = argument_loop false new_argument command

abbrev pub cons_to : Text → Option (List Text) → Option (List Text)
cons_to argument none = none
cons_to argument (some arguments) = some (argument ∷ arguments)

abbrev pub is_blank : Char → Bool
is_blank blank = true
is_blank quote = false
is_blank backslash = false
is_blank other = false

-- `while rest`, with the rounds that it may take; `none` is no Python value, and says that they were
-- too few.
unfoldable pub split_loop : ℕ → Text → Option (List Text)
unfolding split_windows_argument
split_loop fuel [] = some []
split_loop zero (c ∷ rest) = none
split_loop (suc fuel) (c ∷ rest) = elim (is_blank (char_of c)) [
  | true ↦ split_loop fuel rest
  | false ↦
      let (argument, left) = split_windows_argument (c ∷ rest) in
      cons_to argument (split_loop fuel left)
]

unfoldable pub split_windows_command_line : Text → Option (List Text)
unfolding split_loop
split_windows_command_line command = split_loop (length command) command
