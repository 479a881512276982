-- ===== src/OrderedUnity/Flags.antt =====
-- `strip_write_only_flags` of tools/build_hot_super_unity_cdb.py: the options that only name outputs go.
use nvim_dot_files.Prelude.{Bool, ◌||◌, List, [], ◌∷◌, Eq-number, Eq-list, if◌then◌else◌}
use nvim_dot_files.Prelude.Texts.{Text, codes}
use nvim_dot_files.Prelude.Sets.{mem, some_of}
use nvim_dot_files.TierMerge.Tokens.{starts_with}

abbrev pub write_only_flags : List Text
write_only_flags = codes "-MD" ∷ codes "-MMD" ∷ codes "-MP" ∷ codes "-MV" ∷ []

abbrev pub write_only_flags_with_value : List Text
write_only_flags_with_value =
    codes "-o"
    ∷ codes "-MF"
    ∷ codes "-MT"
    ∷ codes "-MQ"
    ∷ codes "-MJ"
    ∷ codes "-dependency-file"
    ∷ codes "-serialize-diagnostics"
    ∷ codes "--serialize-diagnostics"
    ∷ []

abbrev pub write_only_prefixes : List Text
write_only_prefixes =
    codes "-MF"
    ∷ codes "-MT"
    ∷ codes "-MQ"
    ∷ codes "-MJ"
    ∷ codes "-dependency-file="
    ∷ codes "-serialize-diagnostics="
    ∷ codes "--serialize-diagnostics="
    ∷ []

-- `arg.startswith(WRITE_ONLY_PREFIXES)`, for any tuple of prefixes
unfoldable pub starts_with_any : List Text → Text → Bool
unfolding some_of starts_with
starts_with_any prefixes arg = some_of (λ p. starts_with p arg) prefixes

-- An argument that goes alone.
unfoldable pub is_write_only : Text → Bool
unfolding mem starts_with_any
is_write_only arg = mem arg write_only_flags || starts_with_any write_only_prefixes arg

unfoldable pub strip_write_only_flags : List Text → List Text
unfolding mem is_write_only
strip_write_only_flags [] = []
strip_write_only_flags (arg ∷ []) =
    if mem arg write_only_flags_with_value then [] else if is_write_only arg then [] else arg ∷ []
strip_write_only_flags (arg ∷ next ∷ args) =
    let after_value = strip_write_only_flags args in
    let rest = strip_write_only_flags (next ∷ args) in
    if mem arg write_only_flags_with_value
    then after_value
    else if is_write_only arg
    then rest
    else arg ∷ rest
