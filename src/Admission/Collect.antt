-- ===== src/Admission/Collect.antt =====
-- `_collect` of tools/clangd_batch_admission.py: the union of some graphs, or the fault of one.
pub mod Union
pub mod Contexts
pub mod Keyed
use nvim_dot_files.Prelude.{
  ℕ, zero, suc, ◌+◌, Bool, true, false, not, ◌||◌, ◌&&◌, List, [], ◌∷◌, ◌++◌, Option, none, some,
  map, bit_and, nat_eq, if◌then◌else◌, Eq-number, Eq-list, ◌==◌,
}
use nvim_dot_files.Prelude.Result.{Result, ok, err, ◌>>=◌}
use nvim_dot_files.Prelude.Sets.{mem, adjoin}
use nvim_dot_files.Prelude.Dicts.{Dict, at, assign, revise}
use nvim_dot_files.IndexGraph.Reader.{Text}
use nvim_dot_files.IndexGraph.Shard.{Symbol, Ref, Relation, SourceNode}
use nvim_dot_files.IndexGraph.Key.{Key, symbol_key, ref_key, relation_key}
use nvim_dot_files.IndexGraph.Key.Compare.{Eq-key}
use nvim_dot_files.IndexGraph.Canonical.{Graph, FileEntry}
use nvim_dot_files.Admission.Symbols.{is_full}

-- The `ValueError`s of `_collect`, by their messages, then the others that `compare_graphs` catches.
pub data Fault : Type 0 where
  empty_graph no_real_files wrong_source_uri : Fault
  uncompilable nonempty_wrapper conflicting_source : Text → Fault
  bad_url missing_key : Fault

-- `(digest, flags, frozenset(direct_includes))`
pub record Source : Type 0 where
  pub digest : Text
  pub flags : ℕ
  pub includes : List Text

pub record Collected : Type 0 where
  pub sources : Dict Text Source
  pub symbols : Dict Text (Dict Key Symbol)
  pub refs : Dict Key Ref
  pub relations : List Key
  pub contexts : Dict Text (List ℕ)

abbrev pub nothing : Collected
nothing = record { sources = []; symbols = []; refs = []; relations = []; contexts = [] }

-- `flags & 2`: the file did not compile.
unfoldable pub is_broken : SourceNode → Bool
is_broken node = not (nat_eq (bit_and node.flags 2) 0)

abbrev pub has_records : FileEntry → Bool
has_records entry = is_full entry.symbols || (is_full entry.refs || is_full entry.relations)

abbrev source_of : SourceNode → Source
source_of node = record {
  digest = node.digest;
  flags = node.flags;
  includes = node.direct_includes;
}

-- The source of a file, with the includes that it has in the graphs before.
unfoldable pub merged_source : Text → SourceNode → Dict Text Source → Result Fault Source
unfolding at
merged_source uri node sources = elim (at uri sources) [
  | none ↦ ok (source_of node)
  | some previous ↦
      if previous.digest == node.digest && nat_eq previous.flags node.flags
      then ok (record (source_of node) { includes = node.direct_includes ++ previous.includes })
      else err (conflicting_source uri)
]

unfoldable pub add_symbols : List Symbol → Dict Text (Dict Key Symbol) → Dict Text (Dict Key Symbol)
unfolding revise assign
add_symbols [] symbols = symbols
add_symbols (s ∷ rest) symbols = add_symbols rest (revise s.id [] (assign (symbol_key s) s) symbols)

unfoldable pub add_refs : Text → List Ref → Dict Key Ref → Result Fault (Dict Key Ref)
unfolding assign
add_refs uri [] refs = ok refs
add_refs uri (r ∷ rest) refs =
    let added = add_refs uri rest (assign (ref_key r) r refs) in
    if r.location.uri == uri then added else err wrong_source_uri

-- The union with a file that is not ignored, given its source and the references.
abbrev pub with_file : Text → FileEntry → ℕ → Source → Dict Key Ref → Collected → Collected
with_file uri entry index source refs c = record {
  sources = assign uri source c.sources;
  contexts = revise uri [] (adjoin index) c.contexts;
  symbols = add_symbols entry.symbols c.symbols;
  refs = refs;
  relations = map (λ r. relation_key r) entry.relations ++ c.relations;
}

-- The body of the loop over the files of one graph.
unfoldable pub collect_file : List Text → ℕ → Text → FileEntry → Collected → Result Fault Collected
unfolding mem is_broken merged_source add_symbols add_refs assign revise adjoin
collect_file ignored index uri entry c =
    if is_broken entry.source
    then err (uncompilable uri)
    else if mem uri ignored
    then if has_records entry then err (nonempty_wrapper uri) else ok c
    else do
      source ← merged_source uri entry.source c.sources
      refs ← add_refs uri entry.refs c.refs
      ok (with_file uri entry index source refs c)

unfoldable pub collect_files : List Text → ℕ → Graph → Collected → Result Fault Collected
unfolding collect_file
collect_files ignored index [] c = ok c
collect_files ignored index ((uri, entry) ∷ graph) c =
    collect_file ignored index uri entry c >>= collect_files ignored index graph

unfoldable pub collect_graphs : List Text → ℕ → List Graph → Collected → Result Fault Collected
unfolding collect_files
collect_graphs ignored index [] c = ok c
collect_graphs ignored index (graph ∷ graphs) c =
    if is_full graph
    then collect_files ignored index graph c >>= collect_graphs ignored (index + 1) graphs
    else err empty_graph

unfoldable pub collect : List Text → List Graph → Result Fault Collected
unfolding collect_graphs
collect ignored graphs = do
  c ← collect_graphs ignored 0 graphs nothing
  if is_full c.sources then ok c else err no_real_files
