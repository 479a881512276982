-- ===== src/IndexGraph/Canonical/Order.antt =====
-- The canonical graph does not show the order in which a shard holds its records.
use mathlib.Core.List.{Perm}
use nvim_dot_files.Prelude.{◌≡◌, refl, ap, List, [], ◌∷◌, map, ◌∙◌}
use mathlib.Core.Path.{fun_ext}
use nvim_dot_files.Prelude.Result.{Result, ok, ◌>>=◌}
use nvim_dot_files.Prelude.Sorting.{sorted_of_Perm}
use nvim_dot_files.IndexGraph.Reader.{Text}
use nvim_dot_files.IndexGraph.Shard.{Symbol, Ref, Relation, SourceNode, Sources, Shard}
use nvim_dot_files.IndexGraph.Key.{symbol_key, ref_key, relation_key}
use nvim_dot_files.IndexGraph.Key.Compare.{key_order}
use nvim_dot_files.IndexGraph.Key.Injective.{
  symbol_key-injective, ref_key-injective, relation_key-injective,
}
use nvim_dot_files.IndexGraph.Canonical.{
  FileEntry, Graph, sorted_headers, entry_of, own_nodes, own_from, own_entry, add_entry, GraphFault,
  collect, canonical_file_graph,
}

-- The same shard, but for the order of its symbols, of the headers of each, of its references and of
-- its relations.
pub record SameRecords (s t : Shard) : Type 0 where
  pub version : s.version ≡ t.version
  pub sources : s.sources ≡ t.sources
  pub symbols : Perm (map sorted_headers s.symbols) (map sorted_headers t.symbols)
  pub refs : Perm s.refs t.refs
  pub relations : Perm s.relations t.relations

abbrev pub AllSame : List Shard → List Shard → Type 0
AllSame [] [] = Unit
AllSame [] (t ∷ ts) = ⊥
AllSame (s ∷ ss) [] = ⊥
AllSame (s ∷ ss) (t ∷ ts) = SameRecords s t × AllSame ss ts

Symbol-set : IsSet Symbol
Symbol-set = hlevel

Ref-set : IsSet Ref
Ref-set = hlevel

Relation-set : IsSet Relation
Relation-set = hlevel

entry_of-SameRecords :
    (s t : Shard) (node : SourceNode) → SameRecords s t → entry_of s node ≡ entry_of t node
unfolding entry_of
entry_of-SameRecords s t node h = cc (
  sorted_of_Perm key_order symbol_key symbol_key-injective Symbol-set _ _ h.symbols,
  sorted_of_Perm key_order ref_key ref_key-injective Ref-set _ _ h.refs,
  sorted_of_Perm key_order relation_key relation_key-injective Relation-set _ _ h.relations,
)

own_from-SameRecords :
    (s t : Shard) (own : Sources) → SameRecords s t → own_from s own ≡ own_from t own
unfolding own_from
own_from-SameRecords s t [] h = refl
own_from-SameRecords s t ((uri, node) ∷ []) h =
    ap (λ (e : FileEntry). ok (uri, e)) (entry_of-SameRecords s t node h)
own_from-SameRecords s t (_ ∷ _ ∷ _) h = refl

own_entry-SameRecords : (s t : Shard) → SameRecords s t → own_entry s ≡ own_entry t
unfolding own_entry
own_entry-SameRecords s t h =
    cc (h.version, h.sources, own_from-SameRecords s t (own_nodes s.sources) h)

collect-AllSame :
    (graph : Graph) (ss ts : List Shard) → AllSame ss ts → collect graph ss ≡ collect graph ts
unfolding collect
collect-AllSame graph [] [] h = refl
collect-AllSame graph [] (t ∷ ts) h = absurd h
collect-AllSame graph (s ∷ ss) [] h = absurd h
collect-AllSame graph (s ∷ ss) (t ∷ ts) (h, hs) =
    let after : (Graph → Result GraphFault Graph) → Text × FileEntry → Result GraphFault Graph =
      λ k p. add_entry p.0 p.1 graph >>= k in
    ap (λ r. r >>= after (λ g. collect g ss)) (own_entry-SameRecords s t h)
    ∙ ap (λ k. own_entry t >>= after k) (fun_ext λ g. collect-AllSame g ss ts hs)

-- Two lists of shards that differ only in the order of the records in each shard have one canonical
-- graph, or fail alike.
pub canonical_file_graph-AllSame :
    (ss ts : List Shard) (ignored : List Text)
    → AllSame ss ts
    → canonical_file_graph ss ignored ≡ canonical_file_graph ts ignored
unfolding canonical_file_graph
canonical_file_graph-AllSame ss ts ignored h = rw (collect-AllSame [] ss ts h) refl
