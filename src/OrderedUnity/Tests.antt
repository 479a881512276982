-- ===== src/OrderedUnity/Tests.antt =====
-- `build_candidates` on four entries with one header of definitions, and the theorems at them.
use nvim_dot_files.Prelude.{
  ℕ, ◌≡◌, refl, true, false, List, [], ◌∷◌, ◌++◌, Option, none, some, map, All, length, Eq-number,
  Eq-list, ◌==◌, if◌then◌else◌, take, drop,
}
use nvim_dot_files.Prelude.Texts.{Text, codes}
use nvim_dot_files.Prelude.Result.{ok}
use nvim_dot_files.Prelude.Sets.{mem}
use nvim_dot_files.OrderedUnity.Parse.{Host, Entry, parse}
use nvim_dot_files.OrderedUnity.Chunks.{chunks_of}
use nvim_dot_files.OrderedUnity.Grouping.{Membership, Setup, Item, source_key}
use nvim_dot_files.OrderedUnity.Candidates.{Outcome, chunk_lines, build_from, build_candidates}
use nvim_dot_files.OrderedUnity.Candidates.Records.{IsRecord}
use nvim_dot_files.OrderedUnity.Candidates.Accounted.{
  IsAccounted, build_candidates-IsAccounted, build_candidates-IsRecord,
}
use nvim_dot_files.OrderedUnity.Candidates.Restored.{Preprocessor, run_lines, chunk_lines-restore}

-- A host with the header /d/Definitions.h, on which each path is normal.
abbrev header : Text
header = codes "#define A_API" ++ 10 ∷ codes "#undef B_API // off" ++ 10 ∷ []

abbrev host : Host
host = record {
  normcase = λ t. t;
  absolute = λ t. t;
  normpath = λ t. t;
  join = λ d f. if take 1 f == codes "/" then f else d ++ codes "/" ++ f;
  is_absolute = λ t. take 1 t == codes "/";
  is_file = λ t. true;
  path_text = λ t. t;
  file_name = λ t. drop 3 t;
  suffix = λ t. drop 14 t;
  read_bytes = λ t. if t == codes "/d/Definitions.h" then some header else none;
  sha256 = λ raw. take 4 raw;
  classes = record { wide_word = λ c. false; wide_space = λ c. false };
}

abbrev named_entry : Text → Entry
named_entry name = record {
  directory = codes "/d";
  file = name;
  arguments =
      codes "cl"
      ∷ codes "-I"
      ∷ codes "inc"
      ∷ codes "-include"
      ∷ codes "Definitions.h"
      ∷ codes "-o"
      ∷ codes "x.o"
      ∷ name
      ∷ [];
}

abbrev entries : List Entry
entries =
    named_entry (codes "a.cpp")
    ∷ named_entry (codes "s.usf")
    ∷ named_entry (codes "b.cpp")
    ∷ named_entry (codes "c.cpp")
    ∷ []

abbrev membership : Membership
membership =
    (codes "/d/a.cpp", codes "/s/1.cpp" ∷ codes "/s/2.cpp" ∷ [])
    ∷ (codes "/d/b.cpp", codes "/s/3.cpp" ∷ [])
    ∷ (codes "/d/c.cpp", codes "/s/4.gen.cpp" ∷ [])
    ∷ []

abbrev setup : Setup
setup = record {
  host = host;
  parse_entry = parse host;
  max_sources = 2000;
  mapped = membership;
  source_keys = map (source_key host) entries;
}

abbrev outcome : Outcome
outcome = build_from setup 50 (codes "/out") entries

built : build_candidates host (parse host) 50 2000 (codes "/out") entries membership ≡ ok outcome
unfolding build_candidates
built = refl

-- The first and the third entry make a candidate; the shader has no members, and the generated file is
-- alone in its group.
outcome_test :
    (map (λ r. r.original_indexes) outcome.groups ≡ (0 ∷ 2 ∷ []) ∷ [])
    × (outcome.entries_kept ≡ named_entry (codes "s.usf") ∷ named_entry (codes "c.cpp") ∷ [])
    × (map (λ (e : Entry). e.arguments) outcome.candidates
        ≡ (codes "cl"
            ∷ codes "-I"
            ∷ codes "inc"
            ∷ (codes "/out/SuperUnity.Ordered.[" ++ 34 ∷ codes "//.cpp")
            ∷ [])
          ∷ [])
    × (length outcome.rejections ≡ 0)
unfolding build_from parse
outcome_test = (refl, refl, refl, refl)

build_candidates-IsAccounted_example : IsAccounted entries outcome
build_candidates-IsAccounted_example =
    build_candidates-IsAccounted host (parse host) 50 2000 (codes "/out") entries membership outcome
      built

build_candidates-IsRecord_example : All (IsRecord 50 2000 entries) outcome.groups
build_candidates-IsRecord_example =
    build_candidates-IsRecord host (parse host) 50 2000 (codes "/out") entries membership outcome
      built

abbrev numbers : List ℕ
numbers = 2 ∷ 3 ∷ 4 ∷ 5 ∷ 1 ∷ []

chunks_test : chunks_of (λ n. n) 3 7 numbers ≡ (2 ∷ 3 ∷ []) ∷ (4 ∷ []) ∷ (5 ∷ 1 ∷ []) ∷ []
unfolding chunks_of
chunks_test = refl

-- An included file defines the macro A_API.
abbrev effect : Text → (Text → Option Text) → Text → Option Text
effect path macros name = if name == codes "A_API" then some path else macros name

abbrev item : Item
item = record {
  index = 0;
  entry = named_entry (codes "a.cpp");
  source = codes "/d/a.cpp";
  members = codes "/s/1.cpp" ∷ [];
  common = [];
  search = [];
  definitions = codes "/d/Definitions.h" ∷ [];
  source_class = codes "implementation";
}

abbrev start : Preprocessor
start = record { macros = λ name. none; stack = λ name. [] }

abbrev api_names : List Text
api_names = codes "A_API" ∷ codes "B_API" ∷ []

a_listed : mem (codes "A_API") api_names ≡ true
unfolding mem
a_listed = refl

chunk_lines-restore_example :
    ((run_lines effect (chunk_lines api_names (item ∷ [])) start).macros (codes "A_API") ≡ none)
    × ((run_lines effect (chunk_lines api_names (item ∷ [])) start).stack (codes "A_API") ≡ [])
chunk_lines-restore_example =
    chunk_lines-restore effect api_names (item ∷ []) start (codes "A_API") a_listed
