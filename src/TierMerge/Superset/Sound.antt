-- ===== src/TierMerge/Superset/Sound.antt =====
-- What a positive answer of `graph_superset` says of the graphs.
use nvim_dot_files.Prelude.{
  ◌≡◌, true, not, ◌||◌, List, [], ◌∷◌, map, All, Bool-cases, inl, inr, arith, Eq-number, Eq-list,
}
use nvim_dot_files.Prelude.Sets.{mem, same_set, same_set-mem}
use nvim_dot_files.Prelude.Dicts.{keys}
use nvim_dot_files.IndexGraph.Reader.{Text}
use nvim_dot_files.IndexGraph.Shard.{Symbol}
use nvim_dot_files.IndexGraph.Key.{symbol_key}
use nvim_dot_files.IndexGraph.Key.Compare.{Eq-key}
use nvim_dot_files.IndexGraph.Canonical.{Graph, is_empty}
use nvim_dot_files.TierMerge.Superset.{
  MacroSites, without_files, table, uris_of, uris_violations, violations, judge, graph_superset,
}
use nvim_dot_files.TierMerge.Superset.Files.{
  append_empty, empty_of_is_empty, GraphKept, graphs_loop_inv,
}
use nvim_dot_files.TierMerge.Superset.Symbols.{all_symbols, SymbolKept, symbols_kept}

pub record IsSuperset (macros : MacroSites) (originals : List Graph) (candidate : Graph)
    : Type 0 where
  pub uris : (u : Text) → mem u (keys candidate) ≡ mem u (uris_of originals)
  pub symbols :
      (s : Symbol) → mem (symbol_key s) (all_symbols originals) ≡ true → SymbolKept candidate s
  pub files : All (GraphKept macros (table (candidate ∷ [])).symbols candidate) originals

uris_inv :
    (originals : List Graph) (candidate : Graph)
    → uris_violations originals candidate ≡ []
    → same_set (keys candidate) (uris_of originals) ≡ true
unfolding uris_violations
uris_inv originals candidate h =
    elim (Bool-cases (is_empty originals || not (same_set (keys candidate) (uris_of originals)))) [
      | inl bad ↦ cc (rw bad at h)
      | inr good ↦ ground arith
    ]

-- Where `graph_superset` answers that the candidate is a superset, then of the files that are not
-- ignored: it has exactly those of the originals; each symbol of an original has one of its id with the
-- same name, scope, signature, kind and, if it is defined, definition; and at each file it has the
-- digest, the flags and the set of includes, each reference's place and kind with the symbol or one
-- that may stand for it, and each relation as often at least.
pub graph_superset-IsSuperset :
    (originals : List Graph) (candidate : Graph) (ignored : List Text) (macros : MacroSites)
    → (graph_superset originals candidate ignored macros).is_superset ≡ true
    → IsSuperset macros (map (without_files ignored) originals) (without_files ignored candidate)
unfolding graph_superset judge violations
graph_superset-IsSuperset originals candidate ignored macros h =
    let old = map (without_files ignored) originals in
    let new = without_files ignored candidate in
    let (uris, rest) = append_empty _ _ (empty_of_is_empty (violations macros old new) h) in
    let (symbols, files) = append_empty _ _ rest in
    record {
      uris = λ u. same_set-mem (keys new) (uris_of old) u (uris_inv old new uris);
      symbols = λ s m. symbols_kept old new s symbols m;
      files = graphs_loop_inv macros _ new old files;
    }
