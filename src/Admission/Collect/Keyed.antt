-- ===== src/Admission/Collect/Keyed.antt =====
-- The references that `_collect` returns stand under their own keys.
use nvim_dot_files.Prelude.{
  ℕ, ◌+◌, ◌≡◌, refl, List, [], ◌∷◌, some, All, Bool-cases, inl, inr, ◌==◌, Eq-number, Eq-list,
  beq_eq,
}
use nvim_dot_files.Prelude.Result.{ok, >>=-elim-ok}
use nvim_dot_files.Prelude.Dicts.{Dict, at, assign}
use nvim_dot_files.IndexGraph.Reader.{Text}
use nvim_dot_files.IndexGraph.Shard.{Ref}
use nvim_dot_files.IndexGraph.Key.{Key, ref_key}
use nvim_dot_files.IndexGraph.Key.Compare.{Eq-key}
use nvim_dot_files.IndexGraph.Canonical.{Graph, FileEntry}
use nvim_dot_files.Admission.Symbols.{is_full}
use nvim_dot_files.Admission.Collect.{
  Source, Collected, nothing, add_refs, with_file, collect_file, collect_files, collect_graphs,
  collect,
}
use nvim_dot_files.Admission.Collect.Union.{Taken, skipped, joined, collect_file_inv, collect_inv}

-- What holds of the empty union, and is kept by each file that joins, holds of the result.
module _ {ℓ} (P : Collected → Type ℓ)
    (keep : (uri : Text) (entry : FileEntry) (index : ℕ) (source : Source) (refs : Dict Key Ref)
        (c : Collected)
      → add_refs uri entry.refs c.refs ≡ ok refs
      → P c
      → P (with_file uri entry index source refs c)) where
  files_rule :
      (ignored : List Text) (index : ℕ) (graph : Graph) (c c' : Collected)
      → collect_files ignored index graph c ≡ ok c'
      → P c
      → P c'
  unfolding collect_files
  files_rule ignored index [] c c' h p = let same : c ≡ c' = cc h in rw (← same) p
  files_rule ignored index ((uri, entry) ∷ graph) c c' h p =
      >>=-elim-ok (collect_file ignored index uri entry c) (collect_files ignored index graph) h
        λ b first rest.
          files_rule ignored index graph b c' rest
            (one b (collect_file_inv ignored index uri entry c b first))
    where
      one : (b : Collected) → Taken ignored index uri entry c b → P b
      one b (skipped skip same) = rw (← same) p
      one b (joined source refs real q same) = rw (← same) (keep uri entry index source refs c q p)

  graphs_rule :
      (ignored : List Text) (index : ℕ) (graphs : List Graph) (c c' : Collected)
      → collect_graphs ignored index graphs c ≡ ok c'
      → P c
      → P c'
  unfolding collect_graphs
  graphs_rule ignored index [] c c' h p = let same : c ≡ c' = cc h in rw (← same) p
  graphs_rule ignored index (graph ∷ graphs) c c' h p = elim (Bool-cases (is_full graph)) [
    | inl full ↦
        >>=-elim-ok (collect_files ignored index graph c)
          (collect_graphs ignored (index + 1) graphs) (rw full at h)
          λ b first rest.
            graphs_rule ignored (index + 1) graphs b c' rest
              (files_rule ignored index graph c b first p)
    | inr empty ↦ cc (rw empty at h)
  ]

  pub collect_rule :
      (ignored : List Text) (graphs : List Graph) (c : Collected)
      → collect ignored graphs ≡ ok c
      → P nothing
      → P c
  collect_rule ignored graphs c h p =
      graphs_rule ignored 0 graphs nothing c (collect_inv ignored graphs c h).0 p

abbrev IsKeyed : Key × Ref → Type 0
IsKeyed (k, r) = k ≡ ref_key r

assign-IsKeyed :
    (r : Ref) (refs : Dict Key Ref) → All IsKeyed refs → All IsKeyed (assign (ref_key r) r refs)
unfolding assign
assign-IsKeyed r [] h = (refl, tt)
assign-IsKeyed r ((k, s) ∷ refs) (here, rest) = elim (Bool-cases (ref_key r == k)) [
  | inl same ↦ rw same (let e : ref_key r ≡ k = beq_eq (ref_key r) k same in cc e, rest)
  | inr other ↦ rw other (here, assign-IsKeyed r refs rest)
]

add_refs-IsKeyed :
    (uri : Text) (added : List Ref) (refs refs' : Dict Key Ref)
    → add_refs uri added refs ≡ ok refs'
    → All IsKeyed refs
    → All IsKeyed refs'
unfolding add_refs
add_refs-IsKeyed uri [] refs refs' h k = let same : refs ≡ refs' = cc h in rw (← same) k
add_refs-IsKeyed uri (r ∷ added) refs refs' h k = elim (Bool-cases (r.location.uri == uri)) [
  | inl own ↦
      add_refs-IsKeyed uri added (assign (ref_key r) r refs) refs' (rw own at h)
        (assign-IsKeyed r refs k)
  | inr foreign ↦ cc (rw foreign at h)
]

pub All-at :
    (P : Key × Ref → Type 0) (k : Key) (refs : Dict Key Ref) (r : Ref)
    → All P refs
    → at k refs ≡ some r
    → P (k, r)
unfolding at
All-at P k [] r h e = cc
All-at P k ((j, s) ∷ refs) r (here, rest) e = elim (Bool-cases (k == j)) [
  | inl same ↦
      let found : s ≡ r = cc (rw same at e) in
      let key : j ≡ k = cc (beq_eq k j same) in rw (← key, ← found) here
  | inr other ↦ All-at P k refs r rest (rw other at e)
]

-- The reference under a key is the one that the key tells apart.
pub collect-ref_key :
    (ignored : List Text) (graphs : List Graph) (c : Collected)
    → collect ignored graphs ≡ ok c
    → (k : Key) (r : Ref) → at k c.refs ≡ some r
    → k ≡ ref_key r
collect-ref_key ignored graphs c h k r e =
    All-at IsKeyed k c.refs r
      (collect_rule (λ c. All IsKeyed c.refs)
        (λ uri entry index source refs c q p. add_refs-IsKeyed uri entry.refs c.refs refs q p)
        ignored graphs c h tt)
      e
