-- ===== src/Partition/Tests.antt =====
-- The theorems about tools/cdb_partition.py on three entries, which are numbers here, and on arguments.
use nvim_dot_files.Prelude.{
  ◌++◌, ℕ, ◌≡◌, ◌≢◌, refl, true, false, List, [], ◌∷◌, none, some, All, nat_eq, if◌then◌else◌,
  Eq-number, Eq-list, Eq-option, Eq-pair,
}
use nvim_dot_files.Prelude.Texts.{Text, codes}
use nvim_dot_files.Prelude.Sets.{mem, every}
use nvim_dot_files.Prelude.Dicts.{at}
use nvim_dot_files.ShardSeed.{starts_with}
use nvim_dot_files.Partition.Macros.{
  macro_names, Macros, is_opaque, macros_loop, macro_configuration,
}
use nvim_dot_files.Partition.Macros.Printed.{
  CompilerOption, define, undefine, plain, print_all, print_files, IsPrinted, last_value,
}
use nvim_dot_files.Partition.Macros.Last.{macros_loop-last_value}
use nvim_dot_files.Partition.Classify.{all_paths, target_vote, classify_arguments}
use nvim_dot_files.Partition.Classify.Plurality.{
  Voted, platform_votes, project_votes, config_votes, classify_arguments-Voted,
}
use nvim_dot_files.Partition.Groups.{
  Groups, entries_at, without, group_all, of_class, entries_at-group_all,
}
use nvim_dot_files.Partition.Active.{Group, keep, has_platform, pick_active_auto}
use nvim_dot_files.Partition.Active.Most.{IsPick, pick_active_auto-IsPick}
use nvim_dot_files.Partition.Run.{unclassified_key, type_error, returns, partition}
use nvim_dot_files.Partition.Run.Base.{classified, partition_without-platform}
use nvim_dot_files.Partition.Run.Success.{IsPartitioned, partition-IsPartitioned}

-- 0 is a shader, 1 has a platform and a configuration, and the others have a configuration alone.
abbrev test_only : Group
test_only = (none, (none, some (codes "Test")))

abbrev android_test : Group
android_test = (some (codes "Android"), (some (codes "Client"), some (codes "Test")))

abbrev class_of : ℕ → Group
class_of e = if nat_eq e 0 then unclassified_key else if nat_eq e 1 then android_test else test_only

entries_at-group_all_example :
    entries_at android_test (group_all class_of (1 ∷ 0 ∷ 2 ∷ 1 ∷ []))
    ≡ of_class class_of android_test (1 ∷ 0 ∷ 2 ∷ 1 ∷ [])
entries_at-group_all_example = entries_at-group_all class_of android_test (1 ∷ 0 ∷ 2 ∷ 1 ∷ [])

abbrev two_groups : Groups Group ℕ
two_groups = (test_only, 2 ∷ 3 ∷ []) ∷ (android_test, 1 ∷ []) ∷ []

pick_active_auto-IsPick_example : IsPick two_groups (pick_active_auto two_groups)
pick_active_auto-IsPick_example = pick_active_auto-IsPick two_groups

abbrev no_platforms : List ℕ
no_platforms = 2 ∷ 0 ∷ 3 ∷ []

no_platforms-classified : classified class_of no_platforms ≢ []
unfolding group_all without
no_platforms-classified e = cc

no_platforms-keep : keep has_platform (classified class_of no_platforms) ≡ []
unfolding group_all without keep
no_platforms-keep = refl

partition_without-platform_example :
    ((partition class_of true true none no_platforms).0 ≡ type_error)
    × ((partition class_of true true none no_platforms).1.base
        ≡ some (of_class class_of unclassified_key no_platforms))
partition_without-platform_example =
    partition_without-platform class_of no_platforms no_platforms-classified no_platforms-keep

abbrev three : List ℕ
three = 0 ∷ 1 ∷ 2 ∷ []

three-partition :
    partition class_of false true none three
    ≡ (returns 0, (partition class_of false true none three).1)
unfolding partition
three-partition = refl

partition-IsPartitioned_example :
    IsPartitioned class_of true none three (partition class_of false true none three).1
partition-IsPartitioned_example =
    partition-IsPartitioned class_of false true none three
      (partition class_of false true none three).1 three-partition

-- -c -DUE_BUILD_TEST=0 -U UE_BUILD_DEBUG -D UE_BUILD_TEST -DUE_BUILD_TESTS(x)=x -- -DUE_BUILD_TEST=2
abbrev test_options : List CompilerOption
test_options =
    plain (codes "-c")
    ∷ define false (codes "UE_BUILD_TEST") none (some (codes "0"))
    ∷ undefine true (codes "UE_BUILD_DEBUG")
    ∷ define true (codes "UE_BUILD_TEST") none none
    ∷ define false (codes "UE_BUILD_TESTS") (some (codes "x)")) (some (codes "x"))
    ∷ []

abbrev test_files : List Text
test_files = codes "-DUE_BUILD_TEST=2" ∷ []

test_options-printed :
    print_all test_options
    ≡ codes "-c"
      ∷ codes "-DUE_BUILD_TEST=0"
      ∷ codes "-U"
      ∷ codes "UE_BUILD_DEBUG"
      ∷ codes "-D"
      ∷ codes "UE_BUILD_TEST"
      ∷ codes "-DUE_BUILD_TESTS(x)=x"
      ∷ []
test_options-printed = refl

test_options-IsPrinted : All IsPrinted test_options
unfolding mem is_opaque starts_with every
test_options-IsPrinted = (
  (refl, refl, refl, refl),
  (
    (refl, refl, refl),
    ((refl, refl, refl), ((refl, refl, refl), (((refl, refl, refl), refl, refl), tt))),
  ),
)

macros_loop-last_value_example :
    (macros : Macros) × (macros_loop (print_all test_options ++ print_files (some test_files)) []
      ≡ some macros)
    × ((name : Text)
        → at name macros
          ≡ (if mem name macro_names then last_value name test_options none else none))
macros_loop-last_value_example =
    macros_loop-last_value test_options (some test_files) test_options-IsPrinted

abbrev clang : Text
clang = codes "clang++"

macro_configuration_test :
    macro_configuration (clang ∷ print_all test_options) ≡ some (codes "Test")
unfolding macro_configuration
macro_configuration_test = refl

-- An option that forwards others, a value that is no flag, and two macros that are set.
macro_configuration_refusals :
    (macro_configuration (clang ∷ codes "@flags.rsp" ∷ print_all test_options) ≡ none)
    × (macro_configuration (clang ∷ codes "-DUE_BUILD_TEST=2" ∷ []) ≡ none)
    × (macro_configuration (clang ∷ codes "-DUE_BUILD_TEST" ∷ codes "-DUE_BUILD_DEBUG" ∷ []) ≡ none)
unfolding macro_configuration
macro_configuration_refusals = (refl, refl, refl)

abbrev voting : List Text
voting =
    codes "-I../Intermediate/Build/android/Client/Test/Inc"
    ∷ codes "-IIntermediate\\Build\\Win64\\Editor"
    ∷ codes "-Ia/intermediate/build/Android/Client"
    ∷ codes "--target=x86_64-linux"
    ∷ []

classify_arguments_test :
    classify_arguments voting
    ≡ (some (codes "Android"), (some (codes "Client"), some (codes "Test")))
unfolding classify_arguments
classify_arguments_test = refl

target_test :
    classify_arguments
      (clang ∷ codes "--target=X86_64-PC-Windows-MSVC" ∷ codes "-DUE_BUILD_SHIPPING=1" ∷ [])
    ≡ (some (codes "Win64"), (none, some (codes "Shipping")))
unfolding classify_arguments
target_test = refl

classify_arguments-Voted_example :
    Voted (platform_votes (all_paths voting)) (target_vote voting) (classify_arguments voting).0
    × Voted (project_votes (all_paths voting)) none (classify_arguments voting).1.0
    × Voted
        (config_votes (all_paths voting))
        (macro_configuration voting)
        (classify_arguments voting).1.1
classify_arguments-Voted_example = classify_arguments-Voted voting
