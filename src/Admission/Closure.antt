-- ===== src/Admission/Closure.antt =====
-- `closure` of `_valid_providers`: the files of a graph that a file includes, directly or through
-- others. The source keeps each result in `reachable`, which changes no result, since the graphs stay as
-- they are.
pub mod Reaches
use nvim_dot_files.Prelude.{
  ℕ, zero, suc, ◌+◌, List, [], ◌∷◌, Option, none, some, length, if◌then◌else◌, Eq-number, Eq-list,
}
use nvim_dot_files.Prelude.Sets.{mem, adjoin}
use nvim_dot_files.Prelude.Dicts.{at}
use nvim_dot_files.IndexGraph.Reader.{Text}
use nvim_dot_files.IndexGraph.Canonical.{Graph, FileEntry}

-- `pending.extend(paths)`, on a stack whose top stands first
unfoldable pub push : List Text → List Text → List Text
push [] pending = pending
push (path ∷ paths) pending = push paths (path ∷ pending)

-- The `while` loop, on fuel; `none` where the fuel runs out.
unfoldable pub closure_loop : Graph → ℕ → List Text → List Text → Option (List Text)
unfolding mem adjoin at push
closure_loop graph fuel seen [] = some seen
closure_loop graph zero seen (path ∷ pending) = none
closure_loop graph (suc fuel) seen (path ∷ pending) =
    let skipped = closure_loop graph fuel seen pending in
    if mem path seen then skipped else elim (at path graph) [
      | none ↦ skipped
      | some entry ↦
          closure_loop graph fuel (adjoin path seen) (push entry.source.direct_includes pending)
    ]

-- Each include of each file is pushed once at most.
unfoldable pub include_count : Graph → ℕ
include_count [] = 0
include_count ((uri, entry) ∷ graph) = length entry.source.direct_includes + include_count graph

unfoldable pub closure : Graph → Text → Option (List Text)
unfolding closure_loop include_count
closure graph uri = closure_loop graph (suc (include_count graph)) [] (uri ∷ [])
