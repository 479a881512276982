-- ===== src/TierMerge/Superset.antt =====
-- `graph_superset` of tools/cdb_tier_merge.py, over the graphs of IndexGraph.Canonical. `_key` is a JSON
-- text that tells locations and relations apart; their structural keys stand for it here.
pub mod Files
pub mod Symbols
pub mod Sound
use nvim_dot_files.Prelude.{
  ℕ, zero, suc, ◌+◌, Bool, true, false, not, ◌||◌, ◌&&◌, List, [], ◌∷◌, ◌++◌, Option, none, some,
  map, bit_and, nat_eq, ltb, length, take, if◌then◌else◌, Eq-number, Eq-list, Eq-pair, ◌==◌,
}
use nvim_dot_files.Prelude.Sets.{mem, same_set, some_of, keep_if, adjoin}
use nvim_dot_files.Prelude.Dicts.{Dict, at, keys, revise, option_or, is_some}
use nvim_dot_files.IndexGraph.Reader.{Text}
use nvim_dot_files.IndexGraph.Shard.{Symbol, Ref, Relation, SourceNode}
use nvim_dot_files.IndexGraph.Key.{Key, location_key, relation_key}
use nvim_dot_files.IndexGraph.Key.Compare.{Eq-key}
use nvim_dot_files.IndexGraph.Canonical.{Graph, FileEntry, is_empty}

-- The texts of `bad`.
pub data Violation : Type 0 where
  own_file_set_mismatch : Violation
  symbol_missing symbol_fields definition_missing canonical_declaration : Text → Violation
  source_node ref_location_missing ref_target_unresolved relation_missing : Text → Violation

-- `{u: r for u, r in graph.items() if u not in ignored}`
unfoldable pub without_files : List Text → Graph → Graph
unfolding mem keep_if
without_files ignored = keep_if (λ p. not (mem p.0 ignored))

pub record Table : Type 0 where
  pub symbols : Dict Text (List Symbol)
  pub declarations : Dict Text (List Key)

unfoldable pub file_symbols : List Symbol → Dict Text (List Symbol) → Dict Text (List Symbol)
unfolding revise
file_symbols [] found = found
file_symbols (s ∷ symbols) found =
    file_symbols symbols (revise s.id [] (λ rows. rows ++ s ∷ []) found)

unfoldable pub file_declarations : List Ref → Dict Text (List Key) → Dict Text (List Key)
unfolding revise adjoin
file_declarations [] found = found
file_declarations (r ∷ refs) found = file_declarations refs (
    if nat_eq (bit_and r.kind 1) 0
    then found
    else revise r.symbol_id [] (adjoin (location_key r.location)) found)

unfoldable pub graph_table : Graph → Table → Table
unfolding file_symbols file_declarations
graph_table [] t = t
graph_table ((uri, entry) ∷ graph) t = graph_table graph (record {
  symbols = file_symbols entry.symbols t.symbols;
  declarations = file_declarations entry.refs t.declarations;
})

unfoldable pub table_loop : List Graph → Table → Table
unfolding graph_table
table_loop [] t = t
table_loop (graph ∷ graphs) t = table_loop graphs (graph_table graph t)

unfoldable pub table : List Graph → Table
unfolding table_loop
table graphs = table_loop graphs (record { symbols = []; declarations = [] })

-- `all(s.get(f) == old.get(f) for f in fields)`
unfoldable pub same_fields : Symbol → Symbol → Bool
same_fields old s =
    s.name == old.name
    && (s.scope == old.scope && (s.signature == old.signature && nat_eq s.kind old.kind))

-- The candidates of a row that has a definition share it.
unfoldable pub same_definition : Symbol → Symbol → Bool
same_definition old s =
    is_empty old.definition.uri || location_key s.definition == location_key old.definition

-- What a row of a symbol is found to be.
unfoldable pub row_violation : Text → List Symbol → Symbol → Option Violation
unfolding keep_if same_fields same_definition
row_violation id available old =
    let matched = keep_if (same_fields old) available in
    if is_empty matched
    then some (symbol_fields id)
    else if is_empty (keep_if (same_definition old) matched)
    then some (definition_missing id)
    else none

-- The canonical declaration stays, or moves to a site that the originals declare.
unfoldable pub declared : List Key → List Symbol → Symbol → Bool
unfolding some_of mem
declared sites available old =
    some_of
      (λ s.
        location_key s.canonical_declaration == location_key old.canonical_declaration
        || mem (location_key s.canonical_declaration) sites)
      available

-- The loop over the rows of a symbol: the violations, then that of the declaration.
unfoldable pub rows_loop : Text → List Key → List Symbol → List Symbol → Bool → List Violation
unfolding row_violation declared
rows_loop id sites available [] declaration_ok =
    if declaration_ok then [] else canonical_declaration id ∷ []
rows_loop id sites available (old ∷ rows) declaration_ok = elim (row_violation id available old) [
  | some v ↦ v ∷ rows_loop id sites available rows declaration_ok
  | none ↦ rows_loop id sites available rows (declaration_ok || declared sites available old)
]

unfoldable pub symbol_violations :
    Table → Dict Text (List Symbol) → Text → List Symbol → List Violation
unfolding rows_loop at
symbol_violations old new id rows =
    let available = option_or [] (at id new) in
    if is_empty available
    then symbol_missing id ∷ []
    else rows_loop id (option_or [] (at id old.declarations)) available rows false

unfoldable pub symbols_loop :
    Table → Dict Text (List Symbol) → Dict Text (List Symbol) → List Violation
unfolding symbol_violations
symbols_loop old new [] = []
symbols_loop old new ((id, rows) ∷ symbols) =
    symbol_violations old new id rows ++ symbols_loop old new symbols

unfoldable pub same_node : SourceNode → SourceNode → Bool
unfolding same_set
same_node a b =
    a.digest == b.digest && (nat_eq a.flags b.flags && same_set a.direct_includes b.direct_includes)

abbrev pub Sites : Type 0
Sites = Dict (Key × ℕ) (List Text)

abbrev site_of : Ref → Key × ℕ
site_of r = (location_key r.location, r.kind)

unfoldable pub sites_loop : List Ref → Sites → Sites
unfolding revise adjoin
sites_loop [] sites = sites
sites_loop (r ∷ refs) sites = sites_loop refs (revise (site_of r) [] (adjoin r.symbol_id) sites)

-- `macro_sites`: the definition sites of macros, each set without repetition.
abbrev pub MacroSites : Type 0
MacroSites = Dict Text (List Text)

-- A target stands for another if it is the same, is a symbol, or is a macro of the same one site.
unfoldable pub is_target : MacroSites → Dict Text (List Symbol) → Ref → Text → Bool
unfolding same_set at
is_target macros new r id =
    let macro = option_or [] (at r.symbol_id macros) in
    id == r.symbol_id
    || (is_some (at id new)
        || (nat_eq (length macro) 1 && same_set macro (option_or [] (at id macros))))

-- The loop over the references of a file, which ends at the first violation.
unfoldable pub refs_loop :
    MacroSites → Dict Text (List Symbol) → Sites → Text → List Ref → List Violation
unfolding is_target some_of at
refs_loop macros new sites uri [] = []
refs_loop macros new sites uri (r ∷ refs) =
    let rest = refs_loop macros new sites uri refs in
    let alternatives = option_or [] (at (site_of r) sites) in
    if is_empty alternatives
    then ref_location_missing uri ∷ []
    else if some_of (is_target macros new r) alternatives
    then rest
    else ref_target_unresolved uri ∷ []

-- How often a value stands in a list, as `collections.Counter` has it.
unfoldable pub count : Key → List Key → ℕ
count k [] = 0
count k (j ∷ ks) = (if k == j then 1 else 0) + count k ks

-- `Counter(old) - Counter(new)` is not empty.
unfoldable pub exceeds : List Key → List Key → Bool
unfolding some_of count
exceeds old new = some_of (λ k. ltb (count k new) (count k old)) old

abbrev relations_of : FileEntry → List Key
relations_of entry = map (λ r. relation_key r) entry.relations

unfoldable pub file_violations :
    MacroSites → Dict Text (List Symbol) → Text → FileEntry → FileEntry → List Violation
unfolding same_node refs_loop sites_loop exceeds
file_violations macros new_symbols uri old new =
    (if same_node old.source new.source then [] else source_node uri ∷ [])
    ++ (refs_loop macros new_symbols (sites_loop new.refs []) uri old.refs
        ++ (if exceeds (relations_of old) (relations_of new)
            then relation_missing uri ∷ []
            else []))

unfoldable pub files_loop : MacroSites → Dict Text (List Symbol) → Graph → Graph → List Violation
unfolding file_violations at
files_loop macros new_symbols candidate [] = []
files_loop macros new_symbols candidate ((uri, old) ∷ graph) = elim (at uri candidate) [
  | none ↦ files_loop macros new_symbols candidate graph
  | some new ↦
      file_violations macros new_symbols uri old new
      ++ files_loop macros new_symbols candidate graph
]

unfoldable pub graphs_loop :
    MacroSites → Dict Text (List Symbol) → Graph → List Graph → List Violation
unfolding files_loop
graphs_loop macros new_symbols candidate [] = []
graphs_loop macros new_symbols candidate (graph ∷ graphs) =
    files_loop macros new_symbols candidate graph ++ graphs_loop macros new_symbols candidate graphs

abbrev pub uris_of : List Graph → List Text
uris_of [] = []
uris_of (graph ∷ graphs) = keys graph ++ uris_of graphs

-- `not originals or set(candidate) != expected_uris`
unfoldable pub uris_violations : List Graph → Graph → List Violation
unfolding same_set
uris_violations originals candidate =
    if is_empty originals || not (same_set (keys candidate) (uris_of originals))
    then own_file_set_mismatch ∷ []
    else []

-- `bad`, from the graphs without the ignored files
unfoldable pub violations : MacroSites → List Graph → Graph → List Violation
unfolding uris_violations table symbols_loop graphs_loop
violations macros originals candidate =
    let old = table originals in
    let new = table (candidate ∷ []) in
    uris_violations originals candidate
    ++ (symbols_loop old new.symbols old.symbols
        ++ graphs_loop macros new.symbols candidate originals)

-- The result; no reason stands for 'global-superset'.
pub record Judgement : Type 0 where
  pub is_superset : Bool
  pub reason : Option Violation
  pub violations : List Violation
  pub violation_count : ℕ

abbrev first : List Violation → Option Violation
first [] = none
first (v ∷ bad) = some v

unfoldable pub judge : List Violation → Judgement
judge bad = record {
  is_superset = is_empty bad;
  reason = first bad;
  violations = take 100 bad;
  violation_count = length bad;
}

unfoldable pub graph_superset : List Graph → Graph → List Text → MacroSites → Judgement
unfolding without_files violations judge
graph_superset originals candidate ignored macros =
    judge
      (violations macros (map (without_files ignored) originals) (without_files ignored candidate))
