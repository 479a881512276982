-- ===== src/DiagnosticPolicy/Tests.antt =====
-- The policy on a database of three entries.
use nvim_dot_files.Prelude.{
  ◌≡◌, refl, true, false, List, [], ◌∷◌, none, some, Eq-number, Eq-list, drop,
}
use nvim_dot_files.Prelude.Texts.{Text, codes}
use nvim_dot_files.Prelude.Result.{ok}
use nvim_dot_files.Argv.Syntax.{text, array, Entry}
use nvim_dot_files.Argv.Normalize.{file_key, arguments_key}
use nvim_dot_files.DiagnosticPolicy.Version.{supported_version, is_android}
use nvim_dot_files.DiagnosticPolicy.Transform.{
  added, unsupported_standard, explicit_control, Setting, flag, transform_all, apply_policy,
}
use nvim_dot_files.DiagnosticPolicy.Transform.Settled.{apply_policy_again}

abbrev setting : Setting
setting = record {
  nt = false;
  classes = record { wide_word = λ c. false; wide_space = λ c. false };
  wide_digit = λ c. false;
  suffix = λ t. drop 1 t;
}

abbrev target : Text
target = codes "--target=aarch64-none-linux-android26"

abbrev compiled : List Text → Entry
compiled args =
    (file_key, text (codes "a.cpp")) ∷ (arguments_key, array (codes "clang++" ∷ args)) ∷ []

abbrev entries : List Entry
entries =
    compiled (target ∷ codes "-std=c++17" ∷ [])
    ∷ compiled (target ∷ codes "-std" ∷ codes "c++20" ∷ [])
    ∷ compiled (flag ∷ target ∷ codes "-std=c++17" ∷ [])
    ∷ []

abbrev written : List Entry
written =
    compiled (flag ∷ target ∷ codes "-std=c++17" ∷ [])
    ∷ compiled (target ∷ codes "-std" ∷ codes "c++20" ∷ [])
    ∷ compiled (flag ∷ target ∷ codes "-std=c++17" ∷ [])
    ∷ []

transform_all_test :
    transform_all setting entries
    ≡ ok (written, added ∷ unsupported_standard ∷ explicit_control ∷ [])
unfolding transform_all
transform_all_test = refl

version_test :
    (supported_version setting.classes setting.wide_digit
        (codes "Android clangd version 22.1.5 (x)")
      ≡ true)
    × (supported_version setting.classes setting.wide_digit (codes "clangd version 21.1.5") ≡ false)
    × (supported_version setting.classes setting.wide_digit (codes "clangd version 22.1.5rc")
        ≡ false)
unfolding supported_version
version_test = (refl, refl, refl)

target_test :
    (is_android setting.wide_digit (codes "armv7-none-linux-androideabi21") ≡ true)
    × (is_android setting.wide_digit (codes "-linux-android") ≡ false)
    × (is_android setting.wide_digit (codes "x86_64-linux-gnu") ≡ false)
unfolding is_android
target_test = (refl, refl, refl)

abbrev version : Text
version = codes "clangd version 22.1.5"

entries-written : apply_policy setting version entries ≡ ok (some written, 1)
unfolding apply_policy
entries-written = refl

apply_policy_again_example : apply_policy setting version written ≡ ok (none, 0)
apply_policy_again_example = apply_policy_again setting version entries written 1 entries-written
