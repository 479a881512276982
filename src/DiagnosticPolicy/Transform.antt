-- ===== src/DiagnosticPolicy/Transform.antt =====
-- `transform_entry` and `apply_policy` of tools/clangd_diagnostic_compat.py, on entries as Argv has them.
pub mod Again
pub mod Settled
use nvim_dot_files.Prelude.{
  ℕ, zero, suc, ◌+◌, Bool, true, false, not, ◌||◌, ◌&&◌, List, [], ◌∷◌, ◌++◌, Option, none, some,
  nat_eq, Eq-number, Eq-list, ◌==◌, if◌then◌else◌, drop,
}
use nvim_dot_files.Prelude.Texts.{Text, codes}
use nvim_dot_files.Prelude.Result.{Result, ok, err, ◌>>=◌}
use nvim_dot_files.Prelude.Sets.{mem, some_of}
use nvim_dot_files.TierMerge.Tokens.{Classes}
use nvim_dot_files.Argv.Posix.{ArgvFault}
use nvim_dot_files.Argv.Syntax.{Value, null, text, scalar, array, object, Entry, get, lower}
use nvim_dot_files.Argv.Normalize.{file_key, arguments_key, put, normalize_cdb}
use nvim_dot_files.DiagnosticPolicy.Version.{supported_version, is_android}
use nvim_dot_files.DiagnosticPolicy.Options.{Language, read_options, unread}

-- What an entry comes to.
pub data Verdict : Type 0 where
  added explicit_control warnings_disabled incomplete_option : Verdict
  unsupported_target unsupported_standard unsupported_language unproven_language : Verdict

pub data PolicyFault : Type 0 where
  argv : ArgvFault → PolicyFault
  nul_in_arguments file_is_no_text no_arguments : PolicyFault

-- The classes of characters beyond ASCII, `os.name == "nt"`, and `Path(file).suffix`.
pub record Setting : Type 0 where
  pub nt : Bool
  pub classes : Classes
  pub wide_digit : ℕ → Bool
  pub suffix : Text → Text

abbrev pub group : Text
group = codes "missing-template-arg-list-after-template-kw"

abbrev pub flag : Text
flag = codes "-Wno-error=" ++ group

abbrev pub controls : List Text
controls =
    (codes "-W" ++ group)
    ∷ (codes "-Wno-" ++ group)
    ∷ (codes "-Werror=" ++ group)
    ∷ flag
    ∷ (codes "-Wfatal-errors=" ++ group)
    ∷ (codes "-Wno-fatal-errors=" ++ group)
    ∷ []

-- The arguments before `--`.
unfoldable pub before_marks : List Text → List Text
before_marks [] = []
before_marks (arg ∷ args) =
    let rest = before_marks args in if arg == codes "--" then [] else arg ∷ rest

abbrev is_nul : ℕ → Bool
is_nul c = nat_eq c 0

unfoldable pub has_nul : List Text → Bool
unfolding some_of
has_nul args = some_of (some_of is_nul) args

-- `language in (None, 'none')`
abbrev is_unset : Option Text → Bool
is_unset none = true
is_unset (some l) = l == codes "none"

abbrev is_cpp : Option Text → Bool
is_cpp none = false
is_cpp (some l) = l == codes "c++" || l == codes "c++-header"

abbrev is_cpp17 : Option Text → Bool
is_cpp17 none = false
is_cpp17 (some s) = s == codes "c++17"

abbrev targets_android : (ℕ → Bool) → Option Text → Bool
targets_android wide none = false
targets_android wide (some t) = is_android wide t

abbrev cpp_suffixes : List Text
cpp_suffixes =
    codes ".cc"
    ∷ codes ".cpp"
    ∷ codes ".cxx"
    ∷ codes ".c++"
    ∷ codes ".hpp"
    ∷ codes ".hh"
    ∷ codes ".hxx"
    ∷ []

-- The last test; the file is looked at only where the language is not said.
unfoldable pub check_suffix : Setting → Value → Result PolicyFault Verdict
unfolding mem lower
check_suffix setting (text file) =
    if mem (lower (setting.suffix file)) cpp_suffixes then ok added else ok unproven_language
check_suffix setting null = err file_is_no_text
check_suffix setting (scalar t b) = err file_is_no_text
check_suffix setting (array ts) = err file_is_no_text
check_suffix setting (object o) = err file_is_no_text

unfoldable pub check_language : Setting → Entry → Language → Result PolicyFault Verdict
unfolding is_android check_suffix get
check_language setting entry l =
    let by_suffix = check_suffix setting (get file_key entry) in
    if not (targets_android setting.wide_digit l.target)
    then ok unsupported_target
    else if not (is_cpp17 l.standard)
    then ok unsupported_standard
    else if not (is_unset l.language || is_cpp l.language)
    then ok unsupported_language
    else if is_unset l.language
    then by_suffix
    else ok added

abbrev check_read : Setting → Entry → Option Language → Result PolicyFault Verdict
check_read setting entry none = ok incomplete_option
check_read setting entry (some l) = check_language setting entry l

unfoldable pub verdict : Setting → Entry → List Text → Result PolicyFault Verdict
unfolding has_nul some_of mem before_marks read_options check_language
verdict setting entry args =
    let options = drop 1 (before_marks args) in
    let read = check_read setting entry (read_options options unread) in
    if has_nul args
    then err nul_in_arguments
    else if some_of (λ arg. mem arg controls) options
    then ok explicit_control
    else if mem (codes "-w") options || mem (codes "-Wno-everything") options
    then ok warnings_disabled
    else read

-- `[args[0], FLAG, *args[1:]]`
abbrev pub with_flag : List Text → List Text
with_flag [] = []
with_flag (compiler ∷ args) = compiler ∷ flag ∷ args

abbrev pub give : Entry → Entry → List Text → Verdict → Entry × Verdict
give entry structured args added = (put arguments_key (array (with_flag args)) structured, added)
give entry structured args explicit_control = (entry, explicit_control)
give entry structured args warnings_disabled = (entry, warnings_disabled)
give entry structured args incomplete_option = (entry, incomplete_option)
give entry structured args unsupported_target = (entry, unsupported_target)
give entry structured args unsupported_standard = (entry, unsupported_standard)
give entry structured args unsupported_language = (entry, unsupported_language)
give entry structured args unproven_language = (entry, unproven_language)

-- `structured['arguments']`
abbrev pub list_of : Value → Result PolicyFault (List Text)
list_of (array args) = ok args
list_of null = err no_arguments
list_of (text t) = err no_arguments
list_of (scalar t b) = err no_arguments
list_of (object o) = err no_arguments

unfoldable pub judge : Setting → Entry → Entry → List Text → Result PolicyFault (Entry × Verdict)
unfolding verdict put
judge setting entry structured args =
    verdict setting entry args >>= λ v. ok (give entry structured args v)

-- `normalize_cdb([entry])[0][0]`
abbrev pub sole : Result ArgvFault (List Entry × ℕ) → Result PolicyFault Entry
sole (err fault) = err (argv fault)
sole (ok ([], n)) = err no_arguments
sole (ok (entry ∷ entries, n)) = ok entry

unfoldable pub transform_entry : Setting → Entry → Result PolicyFault (Entry × Verdict)
unfolding normalize_cdb get judge
transform_entry setting entry = sole (normalize_cdb setting.nt (entry ∷ [])) >>= λ structured.
    list_of (get arguments_key structured) >>= judge setting entry structured

-- The loop of `apply_policy`: the entries, and how they have come out.
unfoldable pub transform_all : Setting → List Entry → Result PolicyFault (List Entry × List Verdict)
unfolding transform_entry
transform_all setting [] = ok ([], [])
transform_all setting (entry ∷ entries) = transform_entry setting entry >>= λ first.
    transform_all setting entries >>= λ rest. ok (first.0 ∷ rest.0, first.1 ∷ rest.1)

abbrev pub is_added : Verdict → Bool
is_added added = true
is_added explicit_control = false
is_added warnings_disabled = false
is_added incomplete_option = false
is_added unsupported_target = false
is_added unsupported_standard = false
is_added unsupported_language = false
is_added unproven_language = false

-- `counts['added']`
unfoldable pub count_added : List Verdict → ℕ
count_added [] = 0
count_added (v ∷ verdicts) = (if is_added v then 1 else 0) + count_added verdicts

-- The entries that are written, if any are, and how many have got the flag.
unfoldable pub apply_policy :
    Setting → Text → List Entry → Result PolicyFault (Option (List Entry) × ℕ)
unfolding supported_version transform_all count_added
apply_policy setting version_output entries =
    if not (supported_version setting.classes setting.wide_digit version_output)
    then ok (none, 0)
    else (transform_all setting entries >>= λ r.
        ok (if nat_eq (count_added r.1) 0 then none else some r.0, count_added r.1))
