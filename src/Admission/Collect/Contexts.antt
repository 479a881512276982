-- ===== src/Admission/Collect/Contexts.antt =====
-- The `contexts` of `_collect`: for each file, the indices of the graphs in which it stands.
use nvim_dot_files.Prelude.{
  ℕ, ◌+◌, ◌≡◌, ◌||◌, ◌&&◌, List, [], ◌∷◌, if◌then◌else◌, Bool-cases, inl, inr, arith, ◌==◌,
  Eq-number, Eq-list,
}
use nvim_dot_files.Prelude.Result.{ok, >>=-elim-ok}
use nvim_dot_files.Prelude.Sets.{mem, adjoin, mem-adjoin}
use nvim_dot_files.Prelude.Dicts.{at, option_or, at-revise}
use nvim_dot_files.IndexGraph.Reader.{Text}
use nvim_dot_files.IndexGraph.Canonical.{Graph, FileEntry}
use nvim_dot_files.Admission.Symbols.{is_full}
use nvim_dot_files.Admission.Collect.{
  Collected, nothing, collect_file, collect_files, collect_graphs, collect,
}
use nvim_dot_files.Admission.Collect.Union.{
  real_files, uris_in, Taken, skipped, joined, collect_file_inv, collect_inv,
}

-- The indices of the graphs in which the file stands and is not ignored, the first graph at `index`.
abbrev pub holders : List Text → Text → ℕ → List Graph → List ℕ
holders ignored uri index [] = []
holders ignored uri index (graph ∷ graphs) =
    if mem uri (uris_in (real_files ignored graph))
    then index ∷ holders ignored uri (index + 1) graphs
    else holders ignored uri (index + 1) graphs

abbrev indices : Text → Collected → List ℕ
indices uri c = option_or [] (at uri c.contexts)

indices_of_file :
    (ignored : List Text) (index : ℕ) (u : Text) (entry : FileEntry) (c c' : Collected)
    → Taken ignored index u entry c c'
    → (uri : Text) (j : ℕ)
    → mem j (indices uri c') ≡ (
        (j == index && mem uri (uris_in (real_files ignored ((u, entry) ∷ []))))
        || mem j (indices uri c))
unfolding mem
indices_of_file ignored index u entry c c' (skipped skip same) uri j =
    rw (skip, ← same) (ground arith)
indices_of_file ignored index u entry c c' (joined source refs real q same) uri j =
    rw (real, ← same)
      (ground
        (arith, at-revise uri u [] (adjoin index) c.contexts, mem-adjoin j index (indices uri c)))

indices_of_files :
    (ignored : List Text) (index : ℕ) (graph : Graph) (c c' : Collected)
    → collect_files ignored index graph c ≡ ok c'
    → (uri : Text) (j : ℕ)
    → mem j (indices uri c')
      ≡ ((j == index && mem uri (uris_in (real_files ignored graph))) || mem j (indices uri c))
unfolding collect_files mem
indices_of_files ignored index [] c c' h uri j =
    let same : c ≡ c' = cc h in rw (← same) (ground arith)
indices_of_files ignored index ((u, entry) ∷ graph) c c' h uri j =
    >>=-elim-ok (collect_file ignored index u entry c) (collect_files ignored index graph) h
      λ b p q. ground (
        arith,
        indices_of_file ignored index u entry c b (collect_file_inv ignored index u entry c b p) uri
            j,
        indices_of_files ignored index graph b c' q uri j,
      )

indices_of_graphs :
    (ignored : List Text) (index : ℕ) (graphs : List Graph) (c c' : Collected)
    → collect_graphs ignored index graphs c ≡ ok c'
    → (uri : Text) (j : ℕ)
    → mem j (indices uri c') ≡ (mem j (holders ignored uri index graphs) || mem j (indices uri c))
unfolding collect_graphs mem
indices_of_graphs ignored index [] c c' h uri j =
    let same : c ≡ c' = cc h in rw (← same) (ground arith)
indices_of_graphs ignored index (graph ∷ graphs) c c' h uri j = elim (Bool-cases (is_full graph)) [
  | inl full ↦
      >>=-elim-ok (collect_files ignored index graph c) (collect_graphs ignored (index + 1) graphs)
        (rw full at h)
        λ b p q. ground (
          arith,
          indices_of_files ignored index graph c b p uri j,
          indices_of_graphs ignored (index + 1) graphs b c' q uri j,
        )
  | inr empty ↦ cc (rw empty at h)
]

-- The contexts of a file are exactly the indices of the graphs that have the file, if it is not
-- ignored.
pub collect-holders :
    (ignored : List Text) (graphs : List Graph) (c : Collected)
    → collect ignored graphs ≡ ok c
    → (uri : Text) (j : ℕ)
    → mem j (option_or [] (at uri c.contexts)) ≡ mem j (holders ignored uri 0 graphs)
unfolding mem at
collect-holders ignored graphs c h uri j =
    ground
      (arith, indices_of_graphs ignored 0 graphs nothing c (collect_inv ignored graphs c h).0 uri j)
