-- ===== src/DiagnosticPolicy/Options.antt =====
-- The loop over the options in `transform_entry` of tools/clangd_diagnostic_compat.py.
use nvim_dot_files.Prelude.{
  Bool, ◌||◌, ◌&&◌, List, [], ◌∷◌, Option, none, some, ltb, length, Eq-number, Eq-list, ◌==◌,
  if◌then◌else◌, drop,
}
use nvim_dot_files.Prelude.Texts.{Text, codes}
use nvim_dot_files.Prelude.Sets.{mem}
use nvim_dot_files.TierMerge.Tokens.{starts_with}

pub record Language : Type 0 where
  pub target : Option Text
  pub standard : Option Text
  pub language : Option Text

abbrev with_target : Text → Language → Language
with_target t l = record { target = some t; standard = l.standard; language = l.language }

abbrev with_standard : Text → Language → Language
with_standard t l = record { target = l.target; standard = some t; language = l.language }

abbrev with_language : Text → Language → Language
with_language t l = record { target = l.target; standard = l.standard; language = some t }

abbrev target_flags : List Text
target_flags = codes "--target" ∷ codes "-target" ∷ []

-- `arg in ('--target', '-target', '-std', '-x')`
unfoldable pub takes_operand : Text → Bool
unfolding mem
takes_operand arg = mem arg target_flags || (arg == codes "-std" || arg == codes "-x")

unfoldable pub with_operand : Text → Text → Language → Language
unfolding mem
with_operand arg value l =
    if mem arg target_flags
    then with_target value l
    else if arg == codes "-std"
    then with_standard value l
    else with_language value l

-- An option with its operand joined to it.
unfoldable pub with_joined : Text → Language → Language
unfolding starts_with
with_joined arg l =
    if starts_with (codes "--target=") arg
    then with_target (drop 9 arg) l
    else if starts_with (codes "-target=") arg
    then with_target (drop 8 arg) l
    else if starts_with (codes "-std=") arg
    then with_standard (drop 5 arg) l
    else if starts_with (codes "-x") arg && ltb 2 (length arg)
    then with_language (drop 2 arg) l
    else l

-- `none` where an option lacks its operand.
unfoldable pub read_options : List Text → Language → Option Language
unfolding takes_operand with_operand with_joined
read_options [] l = some l
read_options (arg ∷ []) l = if takes_operand arg then none else some (with_joined arg l)
read_options (arg ∷ next ∷ options) l =
    let after_operand = read_options options (with_operand arg next l) in
    let rest = read_options (next ∷ options) (with_joined arg l) in
    if takes_operand arg then after_operand else rest

abbrev pub unread : Language
unread = record { target = none; standard = none; language = none }
