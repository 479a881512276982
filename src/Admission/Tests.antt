-- ===== src/Admission/Tests.antt =====
-- `compare_graphs` on small graphs: a file with a header, and the theorems at them.
use nvim_dot_files.Prelude.{
  ℕ, ◌≡◌, ◌↔◌, refl, true, List, [], ◌∷◌, none, some, Eq-number, Eq-list, nat_eq, if◌then◌else◌,
  Bool-cases, inl, inr, ◌==◌,
}
use nvim_dot_files.Prelude.Result.{ok}
use nvim_dot_files.Prelude.Texts.{codes}
use nvim_dot_files.Prelude.Sorting.{sorted_by}
use nvim_dot_files.Prelude.Sets.{mem}
use nvim_dot_files.Prelude.Dicts.{at, is_some}
use nvim_dot_files.IndexGraph.Reader.{Text, Location}
use nvim_dot_files.IndexGraph.Shard.{Symbol, Ref, IncludeHeader}
use nvim_dot_files.IndexGraph.Key.{location_key, ref_key, symbol_key}
use nvim_dot_files.IndexGraph.Key.Compare.{Eq-key, key_beq, text_order}
use nvim_dot_files.IndexGraph.Canonical.{Graph, FileEntry}
use nvim_dot_files.Admission.Closure.{closure}
use nvim_dot_files.Admission.Closure.Reaches.{Reaches, closure-Reaches}
use nvim_dot_files.Admission.Collect.{Collected, collect}
use nvim_dot_files.Admission.Collect.Union.{IsUnion, collect-IsUnion}
use nvim_dot_files.Admission.Providers.{Urls, Context}
use nvim_dot_files.Admission.Providers.Exposes.{Exposes}
use nvim_dot_files.Admission.Providers.{contexts_of, provider_evidence}
use nvim_dot_files.Admission.Verdict.Same.{HasOneLanguage}
use nvim_dot_files.Admission.Compare.{
  Answer, proven, unproven, Question, Resolvers, accepted, rejected, AddedRef,
  added_references_require_original_proof, records_at,
}
use nvim_dot_files.Admission.Verdict.{compare_graphs}
use nvim_dot_files.Admission.Verdict.Sound.{Admits, compare_graphs-Admits}
use nvim_dot_files.Admission.Verdict.Same.{compare_graphs_self}

abbrev place : Text → ℕ → Location
place uri line = record { uri = uri; start = (line, 4); end = (line, 7) }

abbrev unit_uri : Text
unit_uri = codes "file:///a.cpp"

abbrev header_uri : Text
header_uri = codes "file:///a.h"

abbrev other_uri : Text
other_uri = codes "file:///b.h"

abbrev foo : List IncludeHeader → Symbol
foo headers = record {
  id = codes "0000000000000001";
  kind = 12;
  language = 1;
  name = codes "foo";
  scope = [];
  template_specialization_args = [];
  definition = place unit_uri 3;
  canonical_declaration = place header_uri 1;
  references = 2;
  flags = 16;
  signature = codes "()";
  completion_snippet_suffix = [];
  documentation = [];
  return_type = codes "int";
  type = [];
  include_headers = headers;
}

abbrev suggestion : Text → IncludeHeader
suggestion header = record { header = header; references = 1; supported_directives = 1 }

abbrev use_at : ℕ → Ref
use_at line = record {
  symbol_id = codes "0000000000000001";
  kind = 4;
  location = place unit_uri line;
  container = codes "0000000000000000";
}

abbrev entry : List Symbol → List Ref → List Text → FileEntry
entry symbols refs includes = record {
  symbols = symbols;
  refs = refs;
  relations = [];
  source = record { flags = 0; digest = codes "00000000000000aa"; direct_includes = includes };
}

abbrev graph : List Ref → Graph
graph refs =
    (header_uri, entry (foo (suggestion header_uri ∷ []) ∷ []) [] [])
    ∷ (unit_uri, entry [] refs (header_uri ∷ []))
    ∷ (other_uri, entry [] [] (header_uri ∷ []))
    ∷ []

abbrev old_graph : Graph
old_graph = graph (use_at 5 ∷ [])

abbrev new_graph : Graph
new_graph = graph (use_at 5 ∷ use_at 6 ∷ [])

-- A parser that knows the texts of these tests.
abbrev urls : Urls
urls header = some (codes "file", codes ".h")

abbrev silent : Resolvers
silent = record { original = none; template_arguments = none }

-- A callback that has proven every reference on line 6.
abbrev line_six : Question → Answer
line_six q = if nat_eq q.line 6 then proven else unproven

abbrev asking : Resolvers
asking = record { original = some line_six; template_arguments = none }

abbrev added_six : AddedRef
added_six = record { ref = use_at 6; original_graph_indices = 0 ∷ [] }

needs_proof :
    compare_graphs urls silent (old_graph ∷ []) new_graph []
    ≡ rejected added_references_require_original_proof (added_six ∷ [])
unfolding compare_graphs sorted_by text_order key_beq location_key ref_key
needs_proof = refl

is_proven : compare_graphs urls asking (old_graph ∷ []) new_graph [] ≡ accepted (added_six ∷ []) []
unfolding compare_graphs sorted_by text_order key_beq location_key ref_key
is_proven = refl

compare_graphs-Admits_example : Admits asking (old_graph ∷ []) new_graph []
compare_graphs-Admits_example =
    compare_graphs-Admits urls asking (old_graph ∷ []) new_graph [] (added_six ∷ []) [] is_proven

-- A header that includes the declaring one takes its place.
abbrev original : List Symbol
original = foo (suggestion header_uri ∷ []) ∷ []

abbrev candidate : List Symbol
candidate = foo (suggestion other_uri ∷ []) ∷ []

abbrev contexts : List Context
contexts =
    contexts_of (old_graph ∷ [])
      (provider_evidence (codes "0000000000000001" ∷ []) (old_graph ∷ []))

closure-Reaches_example :
    (files : List Text) × (closure old_graph other_uri ≡ some files)
    × ((v : Text)
        → (mem v files ≡ true)
          ↔ (Reaches old_graph other_uri v × (is_some (at v old_graph) ≡ true)))
closure-Reaches_example = closure-Reaches old_graph other_uri

abbrev only_foo : Symbol
only_foo = foo (suggestion header_uri ∷ [])

abbrev collected : Collected
collected = record {
  sources =
      (header_uri, record { digest = codes "00000000000000aa"; flags = 0; includes = [] })
      ∷ (
        unit_uri,
        record { digest = codes "00000000000000aa"; flags = 0; includes = header_uri ∷ [] },
      )
      ∷ (
        other_uri,
        record { digest = codes "00000000000000aa"; flags = 0; includes = header_uri ∷ [] },
      )
      ∷ [];
  symbols = (only_foo.id, (symbol_key only_foo, only_foo) ∷ []) ∷ [];
  refs = (ref_key (use_at 5), use_at 5) ∷ [];
  relations = [];
  contexts = (header_uri, 0 ∷ []) ∷ (unit_uri, 0 ∷ []) ∷ (other_uri, 0 ∷ []) ∷ [];
}

collects : collect [] (old_graph ∷ []) ≡ ok collected
unfolding collect
collects = refl

collect-IsUnion_example : IsUnion [] (old_graph ∷ []) collected
collect-IsUnion_example = collect-IsUnion [] (old_graph ∷ []) collected collects

one_language : (sid : Text) → HasOneLanguage (records_at sid collected.symbols)
unfolding records_at at
one_language sid = elim (Bool-cases (sid == only_foo.id)) [
  | inl same ↦ rw same (1, (refl, tt))
  | inr other ↦ rw other (0, tt)
]

compare_graphs_self_example :
    compare_graphs urls silent (old_graph ∷ []) old_graph [] ≡ accepted [] []
compare_graphs_self_example =
    compare_graphs_self urls silent old_graph [] collected collects one_language
