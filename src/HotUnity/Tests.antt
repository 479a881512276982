-- ===== src/HotUnity/Tests.antt =====
-- Paths of members, where a source is named, and a plan.
use nvim_dot_files.Prelude.{
  ℕ, ◌-◌, ◌≡◌, ◌≤◌, refl, true, false, List, [], ◌∷◌, ◌++◌, none, some, All, arith, drop, take,
  length,
}
use nvim_dot_files.Prelude.Texts.{Text, codes}
use nvim_dot_files.HotUnity.Paths.{portable_member_path, portable_module_root, source_positions}
use nvim_dot_files.OrderedUnity.Parse.{Entry}
use nvim_dot_files.Prelude.Dicts.{values}
use nvim_dot_files.HotUnity.Buckets.{Tools, NotedEntry, member_stems, buckets_from}
use nvim_dot_files.HotUnity.Context.{compile_context_key}
use nvim_dot_files.HotUnity.Plan.{Unity, Limits, plan_buckets, secondary_unity_chunks}
use nvim_dot_files.HotUnity.Plan.Within.{IsPlanned, plan_buckets-IsPlanned}

abbrev file : Text
file = codes "Source\\Runtime/Core/Private/A.cpp"

paths_test :
    (portable_member_path (codes "D:/ue/" ++ file) ≡ codes "Source/Runtime/Core/Private/A.cpp")
    × (portable_member_path (codes "/w/x/Mod/Private/B.cpp") ≡ codes "Mod/Private/B.cpp")
    × (portable_member_path (codes "/a/b/c/d.cpp") ≡ codes "b/c/d.cpp")
    × (portable_module_root (codes "D:/ue/" ++ file) ≡ codes "Source/Runtime/Core")
    × (portable_module_root (codes "/w/x/Mod/Private/B.cpp") ≡ codes "Mod")
    × (portable_module_root (codes "/a/b/c/d.cpp") ≡ codes "b/c")
unfolding portable_member_path portable_module_root
paths_test = (refl, refl, refl, refl, refl, refl)

positions_test :
    source_positions
      (λ t. t)
      (codes "cl"
        ∷ codes "-o"
        ∷ codes "a.cpp"
        ∷ codes "a.cpp"
        ∷ codes "--"
        ∷ codes "-o"
        ∷ codes "a.cpp"
        ∷ [])
      (codes "a.cpp")
    ≡ 3 ∷ 6 ∷ []
unfolding source_positions
positions_test = refl

abbrev unity : ℕ → ℕ → List Text → List Text → Unity
unity index bytes sources generated = record {
  index = index;
  bytes = bytes;
  sources = 1;
  source_stems = sources;
  generated_stems = generated;
}

-- The third would pass the budget of bytes, the fourth is too large for every chunk, and the last has the
-- stem of the one before it.
abbrev bucket : List Unity
bucket =
    unity 0 200000 [] []
    ∷ unity 1 100000 [] []
    ∷ unity 2 150000 [] []
    ∷ unity 3 400000 [] []
    ∷ unity 4 10 (codes "a" ∷ []) []
    ∷ unity 5 10 [] (codes "a" ∷ [])
    ∷ []

plan_test : secondary_unity_chunks 1 8 none (bucket ∷ []) ≡ some ((0 ∷ 1 ∷ []) ∷ [])
unfolding secondary_unity_chunks
plan_test = refl

abbrev limits : Limits
limits = record { byte_budget = 393216; max_unities = 8; max_sources = some 3 }

eight : 1 ≤ limits.max_unities
eight = omega arith

plan_buckets-IsPlanned_example : All (IsPlanned limits) (plan_buckets limits (bucket ∷ []))
plan_buckets-IsPlanned_example = plan_buckets-IsPlanned limits eight (bucket ∷ [])

-- Entries that differ in their source and output alone share their context.
abbrev compiled : Text → Text → Entry
compiled source output = record {
  directory = codes "/d";
  file = source;
  arguments = codes "cl" ∷ codes "-o" ∷ output ∷ source ∷ [];
}

context_test :
    (compile_context_key (λ t. t) (λ t. t) (compiled (codes "a.cpp") (codes "a.o"))
      ≡ compile_context_key (λ t. t) (λ t. t) (compiled (codes "b.cpp") (codes "b.o")))
    × (drop 30 (compile_context_key (λ t. t) (λ t. t) (compiled (codes "a.cpp") (codes "a.o")))
        ≡ b'[' ∷ 34 ∷ codes "cl" ++ 34 ∷ b',' ∷ 34 ∷ codes "<SOURCE>" ++ 34 ∷ codes "]}")
unfolding compile_context_key
context_test = (refl, refl)

abbrev tools : Tools
tools = record {
  normcase = λ t. t;
  splitext = λ t. (take (length t - 4) t, drop (length t - 4) t);
  casefold = λ t. t;
  digest = λ t. t;
}

stems_test :
    member_stems tools (codes "x/A.cpp" ∷ codes "x\\B.gen.cpp" ∷ codes "A.cpp" ∷ codes "n.txt" ∷ [])
    ≡ (codes "A" ∷ [], codes "B" ∷ [])
unfolding member_stems
stems_test = refl

abbrev noted : Text → Text → NotedEntry
noted source module_root = record {
  entry = compiled source (codes "x.o");
  members = codes "m/a.gen.cpp" ∷ [];
  module_root = module_root;
  has_tier = false;
  has_background_route = false;
}

-- The second entry is no unity, and the third has no module.
buckets_test :
    values (
      buckets_from tools true false 0
        (noted (codes "SuperUnity.UBT.1.cpp") (codes "Core")
          ∷ noted (codes "b.cpp") (codes "Core")
          ∷ noted (codes "SuperUnity.UBT.2.cpp") []
          ∷ noted (codes "SuperUnity.UBT.3.cpp") (codes "Core")
          ∷ [])
        [])
    ≡ (0 ∷ 3 ∷ []) ∷ []
unfolding buckets_from
buckets_test = refl
