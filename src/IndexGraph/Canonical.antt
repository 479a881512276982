-- ===== src/IndexGraph/Canonical.antt =====
-- `canonical_file_graph` of tools/clangd_index_graph.py: the shards of a set of files as one graph.
pub mod Dictionary
pub mod Order
pub mod Lookup
use nvim_dot_files.Prelude.{
  ℕ, ◌≡◌, ◌↔◌, refl, Bool, true, false, not, ◌||◌, List, [], ◌∷◌, ◌++◌, Option, none, some, map,
  nat_eq, if◌then◌else◌, ◌==◌, Eq, Eq-number, Eq-list,
}
use nvim_dot_files.Prelude.Result.{Result, ok, err, ◌>>=◌}
use nvim_dot_files.Prelude.Sorting.{sorted_by}
use nvim_dot_files.Prelude.Texts.{codes}
use nvim_dot_files.IndexGraph.Reader.{Text}
use nvim_dot_files.IndexGraph.Shard.{
  IncludeHeader, Symbol, Ref, Relation, SourceNode, Sources, Shard,
}
use nvim_dot_files.IndexGraph.Riff.{version}
use native.Mathlib.Decide.{ℕ_discrete}
use nvim_dot_files.IndexGraph.Key.{header_key, symbol_key, ref_key, relation_key}
use nvim_dot_files.IndexGraph.Key.Compare.{key_order, text_order}

-- The messages of the `ValueError`s; the last two name a URI.
pub data GraphFault : Type 0 where
  unsupported_graph_version expected_one_own : GraphFault
  conflicting_shards nonempty_ignored : Text → GraphFault

pub record FileEntry : Type 0 where
  pub symbols : List Symbol
  pub refs : List Ref
  pub relations : List Relation
  pub source : SourceNode

-- The dictionary of entries by URI, in the order of insertion.
abbrev pub Graph : Type 0
Graph = List (Text × FileEntry)

abbrev pub zero_digest : Text
zero_digest = codes "0000000000000000"

-- The nodes with a digest that is not all zeros.
unfoldable pub own_nodes : Sources → Sources
own_nodes [] = []
own_nodes ((uri, node) ∷ sources) =
    let rest = own_nodes sources in if node.digest == zero_digest then rest else (uri, node) ∷ rest

unfoldable pub sorted_headers : Symbol → Symbol
sorted_headers s = record s { include_headers = sorted_by key_order header_key s.include_headers }

unfoldable pub entry_of : Shard → SourceNode → FileEntry
unfolding sorted_headers
entry_of shard source = record {
  symbols = sorted_by key_order symbol_key (map sorted_headers shard.symbols);
  refs = sorted_by key_order ref_key shard.refs;
  relations = sorted_by key_order relation_key shard.relations;
  source = record source {
    direct_includes = sorted_by text_order (λ uri. uri) source.direct_includes;
  };
}

-- `len(own) != 1` and `own[0]`
unfoldable pub own_from : Shard → Sources → Result GraphFault (Text × FileEntry)
unfolding entry_of
own_from shard [] = err expected_one_own
own_from shard ((uri, source) ∷ []) = ok (uri, entry_of shard source)
own_from shard (_ ∷ _ ∷ _) = err expected_one_own

unfoldable pub own_entry : Shard → Result GraphFault (Text × FileEntry)
unfolding own_nodes own_from
own_entry shard =
    if nat_eq shard.version version
    then own_from shard (own_nodes shard.sources)
    else err unsupported_graph_version

-- `graph.get(uri)`
unfoldable pub entry_at : Text → Graph → Option FileEntry
entry_at uri [] = none
entry_at uri ((u, e) ∷ graph) = if u == uri then some e else entry_at uri graph

-- `del graph[uri]`
unfoldable pub remove_at : Text → Graph → Graph
remove_at uri [] = []
remove_at uri ((u, e) ∷ graph) = if u == uri then graph else (u, e) ∷ remove_at uri graph

abbrev pub is_empty : {A : Type 0} → List A → Bool
is_empty [] = true
is_empty (x ∷ xs) = false

-- Python's `==` on entries compares them field by field.
pub FileEntry-discrete : Discrete FileEntry
FileEntry-discrete = hlevel ℕ_discrete

-- `graph[uri] = entry`, unless another entry stands there.
unfoldable pub add_entry : Text → FileEntry → Graph → Result GraphFault Graph
unfolding entry_at
add_entry uri entry graph = elim (entry_at uri graph) [
  | none ↦ ok (graph ++ (uri, entry) ∷ [])
  | some old ↦ elim (FileEntry-discrete old entry) [
    | yes same ↦ ok graph
    | no differ ↦ err (conflicting_shards uri)
  ]
]

unfoldable pub collect : Graph → List Shard → Result GraphFault Graph
unfolding own_entry add_entry
collect graph [] = ok graph
collect graph (shard ∷ shards) = do
  (uri, entry) ← own_entry shard
  graph' ← add_entry uri entry graph
  collect graph' shards

unfoldable pub ignore : Graph → List Text → Result GraphFault Graph
unfolding entry_at remove_at
ignore graph [] = ok graph
ignore graph (uri ∷ uris) = elim (entry_at uri graph) [
  | none ↦ ignore graph uris
  | some e ↦
      let rest = ignore (remove_at uri graph) uris in
      if not (is_empty e.symbols) || not (is_empty e.refs) || not (is_empty e.relations)
      then err (nonempty_ignored uri)
      else rest
]

unfoldable pub canonical_file_graph : List Shard → List Text → Result GraphFault Graph
unfolding collect ignore
canonical_file_graph shards ignore_files = do
  graph ← collect [] shards
  graph' ← ignore graph ignore_files
  ok (sorted_by text_order (λ p. p.0) graph')
