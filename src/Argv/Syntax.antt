-- ===== src/Argv/Syntax.antt =====
-- The syntax of a command string in tools/cdb_argv.py: the hints of its entry, and the guess from its
-- characters.
pub mod Quoted
use nvim_dot_files.Prelude.{
  ℕ, ◌+◌, ◌*◌, ◌-◌, Bool, true, false, not, ◌&&◌, ◌||◌, List, [], ◌∷◌, ◌++◌, Option, none, some,
  ltb, leb, if◌then◌else◌, ◌==◌, Eq-number, Eq-list,
}
use nvim_dot_files.Prelude.Texts.{Text, codes}
use nvim_dot_files.Prelude.Result.{Result, ok, err}
use nvim_dot_files.Argv.Posix.{ArgvFault, stuck, split_posix_command_line}
use nvim_dot_files.Argv.Windows.{split_windows_command_line}

-- `str.isspace` of one character.
unfoldable pub is_space : ℕ → Bool
is_space c =
    (leb 9 c && leb c 13)
    || ((leb 28 c && leb c 32)
        || (c == 133
            || (c == 160
                || (c == 5760
                    || ((leb 8192 c && leb c 8202)
                        || (c == 8232
                            || (c == 8233 || (c == 8239 || (c == 8287 || c == 12288)))))))))

-- The next character, where there is one, makes a backslash outside double quotes a POSIX escape.
unfoldable pub posix_escape : Text → Bool
unfolding is_space
posix_escape [] = false
posix_escape (c ∷ rest) = is_space c || (c == 39 || (c == b'"' || (c == 92 || c == b'$')))

-- The next character is one that a backslash escapes within double quotes.
unfoldable pub double_escape : Text → Bool
double_escape [] = false
double_escape (c ∷ rest) = c == b'"' || (c == 92 || (c == b'$' || c == b'`'))

-- The loop of `_looks_posix_quoted`, by `in_double` and `escaped`.
unfoldable pub looks_loop : Bool → Bool → Text → Bool
unfolding posix_escape double_escape
looks_loop in_double escaped [] = false
looks_loop in_double true (c ∷ rest) = looks_loop in_double false rest
looks_loop in_double false (c ∷ rest) = elim (c == 92) [
  | true ↦ elim (not in_double && posix_escape rest) [
    | true ↦ true
    | false ↦ looks_loop in_double (in_double && double_escape rest) rest
  ]
  | false ↦ elim (c == b'"') [
    | true ↦ looks_loop (not in_double) false rest
    | false ↦ elim (c == 39 && not in_double) [
      | true ↦ true
      | false ↦ looks_loop in_double false rest
    ]
  ]
]

unfoldable pub looks_posix_quoted : Text → Bool
unfolding looks_loop
looks_posix_quoted command = looks_loop false false command

-- A JSON value of an entry. A `scalar` is a number or a truth value: what `str` makes of it, and whether it
-- is true. Of the values in an object only `str` is asked, and `none` is `null`.
pub data Value : Type 0 where
  null : Value
  text : Text → Value
  scalar : Text → Bool → Value
  array : List Text → Value
  object : List (Text × Option Text) → Value

-- An entry of the database, a dictionary.
abbrev pub Entry : Type 0
Entry = List (Text × Value)

-- `entry.get(key)`
unfoldable pub get : Text → Entry → Value
get key [] = null
get key ((k, v) ∷ entry) = if k == key then v else get key entry

unfoldable pub get_text : Text → List (Text × Option Text) → Option Text
get_text key [] = none
get_text key ((k, v) ∷ entry) = if k == key then v else get_text key entry

-- `str(value)`; of a list or a dictionary, the bracket that it begins with, which no hint has.
abbrev str_of : Value → Option Text
str_of null = none
str_of (text t) = some t
str_of (scalar t truth) = some t
str_of (array ts) = some (b'[' ∷ [])
str_of (object o) = some (b'{' ∷ [])

unfoldable pub drop_spaces : Text → Text
unfolding is_space
drop_spaces [] = []
drop_spaces (c ∷ t) = let rest = drop_spaces t in if is_space c then rest else c ∷ t

-- The text without the spaces at its end.
unfoldable pub strip_end : Text → Text
unfolding is_space
strip_end [] = []
strip_end (c ∷ t) = let rest = strip_end t in if is_space c && rest == [] then [] else c ∷ rest

-- `str.strip`
unfoldable pub strip : Text → Text
unfolding drop_spaces strip_end
strip t = strip_end (drop_spaces t)

-- `str.lower`, on the letters that the hints are made of. Of the other characters only the Kelvin sign
-- and the dotted capital I have an ASCII letter in lower case: no hint has a `k`, and the dot stays.
unfoldable pub lower : Text → Text
lower [] = []
lower (c ∷ t) = (if leb b'A' c && leb c b'Z' then c + 32 else c) ∷ lower t

-- `_normalize_hint`, where the empty text stands for `None` too: neither is a hint.
unfoldable pub normalize_hint : Option Text → Text
unfolding strip lower
normalize_hint none = []
normalize_hint (some t) = lower (strip t)

unfoldable pub one_of : Text → List Text → Bool
one_of t [] = false
one_of t (u ∷ us) = t == u || one_of t us

abbrev pub posix_hints : List Text
posix_hints =
    codes "posix"
    ∷ codes "sh"
    ∷ codes "bash"
    ∷ codes "zsh"
    ∷ codes "darwin"
    ∷ codes "macos"
    ∷ codes "linux"
    ∷ []

abbrev pub windows_hints : List Text
windows_hints =
    codes "windows"
    ∷ codes "win32"
    ∷ codes "windows_nt"
    ∷ codes "nt"
    ∷ codes "cmd"
    ∷ codes "powershell"
    ∷ codes "pwsh"
    ∷ []

pub data Syntax : Type 0 where
  posix windows : Syntax

-- The body of the loop over the keys: the syntax that a hint names.
unfoldable pub syntax_of_hint : Text → Option Syntax
unfolding one_of
syntax_of_hint hint =
    if one_of hint posix_hints
    then some posix
    else if one_of hint windows_hints
    then some windows
    else none

abbrev or_next : Option Syntax → Option Syntax → Option Syntax
or_next none next = next
or_next (some syntax) next = some syntax

unfoldable pub first_hint : List Text → (Text → Option Text) → Option Syntax
unfolding syntax_of_hint normalize_hint
first_hint [] value = none
first_hint (key ∷ keys) value =
    or_next (syntax_of_hint (normalize_hint (value key))) (first_hint keys value)

abbrev provenance_of : Value → Option Syntax
provenance_of (object o) =
    first_hint (codes "command_syntax" ∷ codes "shell_kind" ∷ codes "host_os" ∷ [])
      (λ key. get_text key o)
provenance_of null = none
provenance_of (text t) = none
provenance_of (scalar t truth) = none
provenance_of (array ts) = none

unfoldable pub syntax_from_provenance : Option Entry → Option Syntax
unfolding get first_hint get_text
syntax_from_provenance none = none
syntax_from_provenance (some entry) =
    or_next
      (first_hint
        (codes "command_syntax"
          ∷ codes "nvim_ue_command_syntax"
          ∷ codes "shell_kind"
          ∷ codes "host_os"
          ∷ [])
        (λ key. str_of (get key entry)))
      (provenance_of (get (codes "provenance") entry))

-- `command_syntax`, where `nt` says that `os.name` is "nt".
unfoldable pub command_syntax : Bool → Option Entry → Text → Syntax
unfolding syntax_from_provenance looks_posix_quoted
command_syntax nt entry command = elim (syntax_from_provenance entry) [
  | some syntax ↦ syntax
  | none ↦ if looks_posix_quoted command then posix else if nt then windows else posix
]

abbrev or_stuck : Option (List Text) → Result ArgvFault (List Text)
or_stuck none = err stuck
or_stuck (some arguments) = ok arguments

unfoldable pub split_command_line : Bool → Text → Option Entry → Result ArgvFault (List Text)
unfolding command_syntax split_posix_command_line split_windows_command_line
split_command_line nt command entry = elim (command_syntax nt entry command) [
  | posix ↦ split_posix_command_line command
  | windows ↦ or_stuck (split_windows_command_line command)
]
