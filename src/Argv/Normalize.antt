-- ===== src/Argv/Normalize.antt =====
-- `normalize_cdb` of tools/cdb_argv.py: every entry of a database with its arguments as a list.
pub mod Entries
pub mod Stable
use nvim_dot_files.Prelude.{
  ℕ, suc, ◌+◌, Bool, true, false, not, ◌&&◌, ◌||◌, List, [], ◌∷◌, ◌++◌, Option, none, some,
  if◌then◌else◌, ◌==◌, Eq-number, Eq-list,
}
use nvim_dot_files.Prelude.Texts.{Text, codes}
use nvim_dot_files.Prelude.Result.{Result, ok, err, ◌>>=◌}
use nvim_dot_files.Argv.Posix.{ArgvFault, lacks_command, lacks_arguments}
use nvim_dot_files.Argv.Syntax.{
  Value, null, text, scalar, array, object, Entry, get, strip, split_command_line,
}

abbrev pub file_key : Text
file_key = codes "file"

abbrev pub arguments_key : Text
arguments_key = codes "arguments"

abbrev pub command_key : Text
command_key = codes "command"

-- `entry[key] = value`: in the place of the old value, or at the end.
unfoldable pub put : Text → Value → Entry → Entry
put key value [] = (key, value) ∷ []
put key value ((k, v) ∷ entry) =
    let rest = put key value entry in if k == key then (k, value) ∷ entry else (k, v) ∷ rest

-- `entry.pop(key, None)`; a dictionary has a key once.
unfoldable pub pop : Text → Entry → Entry
pop key [] = []
pop key ((k, v) ∷ entry) = let rest = pop key entry in if k == key then rest else (k, v) ∷ rest

abbrev pub nonempty {ℓ} : {A : Type ℓ} → List A → Bool
nonempty [] = false
nonempty (x ∷ xs) = true

-- Whether Python takes the value for true.
abbrev pub truth : Value → Bool
truth null = false
truth (text t) = nonempty t
truth (scalar t b) = b
truth (array ts) = nonempty ts
truth (object o) = nonempty o

-- The arguments of an entry that has a command only: a text that is not blank.
unfoldable pub arguments_of_command : Bool → ℕ → Entry → Value → Result ArgvFault (List Text)
unfolding strip split_command_line
arguments_of_command nt index entry (text command) =
    if strip command == []
    then err (lacks_command index)
    else split_command_line nt command (some entry)
arguments_of_command nt index entry null = err (lacks_command index)
arguments_of_command nt index entry (scalar t b) = err (lacks_command index)
arguments_of_command nt index entry (array ts) = err (lacks_command index)
arguments_of_command nt index entry (object o) = err (lacks_command index)

abbrev pub converted_one : Result ArgvFault (List Text) → Result ArgvFault (List Text × ℕ)
converted_one (ok arguments) = ok (arguments, 1)
converted_one (err e) = err e

-- The arguments of an entry, and by how much `converted` grows.
unfoldable pub arguments_of : Bool → ℕ → Entry → Value → Result ArgvFault (List Text × ℕ)
unfolding arguments_of_command get
arguments_of nt index entry (array arguments) = ok (arguments, 0)
arguments_of nt index entry null =
    converted_one (arguments_of_command nt index entry (get command_key entry))
arguments_of nt index entry (text t) =
    converted_one (arguments_of_command nt index entry (get command_key entry))
arguments_of nt index entry (scalar t b) =
    converted_one (arguments_of_command nt index entry (get command_key entry))
arguments_of nt index entry (object o) =
    converted_one (arguments_of_command nt index entry (get command_key entry))

unfoldable pub structured : Entry → List Text → Entry
unfolding put pop
structured entry arguments = pop command_key (put arguments_key (array arguments) entry)

unfoldable pub finish_entry : ℕ → Entry → List Text × ℕ → Result ArgvFault (Entry × ℕ)
unfolding get structured
finish_entry index entry (arguments, n) =
    if not (truth (get file_key entry)) || not (nonempty arguments)
    then err (lacks_arguments index)
    else ok (structured entry arguments, n)

unfoldable pub normalize_entry : Bool → ℕ → Entry → Result ArgvFault (Entry × ℕ)
unfolding arguments_of finish_entry
normalize_entry nt index entry =
    arguments_of nt index entry (get arguments_key entry) >>= finish_entry index entry

abbrev pub prepend : Entry × ℕ → List Entry × ℕ → Result ArgvFault (List Entry × ℕ)
prepend (entry, n) (normalized, converted) = ok (entry ∷ normalized, n + converted)

-- The loop of `normalize_cdb`, from the entry at `index` on.
unfoldable pub normalize_from : Bool → ℕ → List Entry → Result ArgvFault (List Entry × ℕ)
unfolding normalize_entry
normalize_from nt index [] = ok ([], 0)
normalize_from nt index (entry ∷ entries) = normalize_entry nt index entry >>= λ first.
    normalize_from nt (suc index) entries >>= prepend first

unfoldable pub normalize_cdb : Bool → List Entry → Result ArgvFault (List Entry × ℕ)
unfolding normalize_from
normalize_cdb nt entries = normalize_from nt 0 entries
