-- ===== src/Admission/Templates.antt =====
-- `_template_requests` of tools/clangd_batch_admission.py: what a compiler is asked to prove of the
-- symbols whose printed template arguments changed.
use nvim_dot_files.Prelude.{
  ℕ, ◌+◌, List, [], ◌∷◌, none, some, map, if◌then◌else◌, Eq-number, Eq-list,
}
use nvim_dot_files.Prelude.Sorting.{sorted_by}
use nvim_dot_files.Prelude.Sets.{mem}
use nvim_dot_files.Prelude.Dicts.{Dict, at, assign, revise, values, option_or}
use nvim_dot_files.IndexGraph.Reader.{Text}
use nvim_dot_files.IndexGraph.Shard.{Symbol}
use nvim_dot_files.IndexGraph.Key.{Key, symbol_key}
use nvim_dot_files.IndexGraph.Key.Compare.{Eq-key, key_order, text_order}
use nvim_dot_files.IndexGraph.Canonical.{Graph}

pub record TemplateRequest : Type 0 where
  pub symbol_id : Text
  pub originals : List (ℕ × List Symbol)
  pub candidate : List Symbol

-- `[records[key] for key in sorted(records)]`
unfoldable pub sorted_records : Dict Key Symbol → List Symbol
sorted_records records = values (sorted_by key_order (λ p. p.0) records)

abbrev pub sorted_texts : List Text → List Text
sorted_texts = sorted_by text_order (λ t. t)

unfoldable pub find_symbols :
    List Text → List Symbol → Dict Text (Dict Key Symbol) → Dict Text (Dict Key Symbol)
unfolding mem revise assign
find_symbols wanted [] found = found
find_symbols wanted (s ∷ symbols) found =
    find_symbols wanted symbols
      (if mem s.id wanted then revise s.id [] (assign (symbol_key s) s) found else found)

-- The records of the wanted symbols in one graph.
unfoldable pub find_in_graph :
    List Text → Graph → Dict Text (Dict Key Symbol) → Dict Text (Dict Key Symbol)
unfolding find_symbols
find_in_graph wanted [] found = found
find_in_graph wanted ((uri, entry) ∷ graph) found =
    find_in_graph wanted graph (find_symbols wanted entry.symbols found)

-- The graphs that hold records of the symbol, by their indices.
unfoldable pub originals_of : List Text → Text → ℕ → List Graph → List (ℕ × List Symbol)
unfolding find_in_graph sorted_records at
originals_of wanted sid index [] = []
originals_of wanted sid index (graph ∷ graphs) = elim (at sid (find_in_graph wanted graph [])) [
  | none ↦ originals_of wanted sid (index + 1) graphs
  | some records ↦ (index, sorted_records records) ∷ originals_of wanted sid (index + 1) graphs
]

unfoldable pub template_requests :
    List Text → List Graph → Dict Text (Dict Key Symbol) → List TemplateRequest
unfolding originals_of sorted_records at
template_requests wanted graphs candidates =
    map
      (λ sid. record {
        symbol_id = sid;
        originals = originals_of wanted sid 0 graphs;
        candidate = sorted_records (option_or [] (at sid candidates));
      })
      (sorted_texts wanted)
