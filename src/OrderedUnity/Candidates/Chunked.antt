-- ===== src/OrderedUnity/Candidates/Chunked.antt =====
-- The chunks of the groups hold the items of the groups, and keep the budgets.
use nvim_dot_files.Prelude.{
  ℕ, ◌+◌, ◌≡◌, ◌≤◌, refl, sym, ap, subst, List, [], ◌∷◌, ◌++◌, map, All, All-append,
  All-append_left, All-append_right, length, length-append, arith, Eq-number,
}
use nvim_dot_files.OrderedUnity.Parse.{Entry}
use nvim_dot_files.OrderedUnity.Chunks.{
  chunks_of, joined, joined-chunks_of, IsWithin, chunks_of-IsWithin, total,
}
use nvim_dot_files.OrderedUnity.Grouping.{Item}
use nvim_dot_files.OrderedUnity.Grouping.Items.{IsItem}
use nvim_dot_files.OrderedUnity.Grouping.Counted.{times, indexes, counted, indexes-append}
use nvim_dot_files.OrderedUnity.Candidates.{size_of, all_chunks, concat}

counted-joined :
    (i : ℕ) (lists : List (List Item)) → counted i lists ≡ times i (indexes (joined lists))
counted-joined i [] = refl
counted-joined i (items ∷ lists) =
    omega (arith, counted-joined i lists, indexes-append i items (joined lists))

counted-append : (i : ℕ) (s t : List (List Item)) → counted i (s ++ t) ≡ counted i s + counted i t
counted-append i [] t = omega arith
counted-append i (items ∷ s) t = omega (arith, counted-append i s t)

All-unjoin :
    (P : Item → Type 0) (lists : List (List Item)) → All P (joined lists) → All (All P) lists
All-unjoin P [] h = tt
All-unjoin P (items ∷ lists) h = (
  All-append_left P items (joined lists) h,
  All-unjoin P lists (All-append_right P items (joined lists) h),
)

module _ (max_originals max_sources : ℕ) where
  pub counted-all_chunks :
      (i : ℕ) (groups : List (List Item))
      → counted i (all_chunks max_originals max_sources groups) ≡ counted i groups
  unfolding all_chunks
  counted-all_chunks i [] = refl
  counted-all_chunks i (group ∷ groups) =
      let chunks = chunks_of size_of max_originals max_sources group in
      let whole : times i (indexes (joined chunks)) ≡ times i (indexes group) =
        ap (λ items. times i (indexes items))
          (joined-chunks_of size_of max_originals max_sources group) in
      omega (
        arith,
        counted-append i chunks (all_chunks max_originals max_sources groups),
        counted-joined i chunks,
        counted-all_chunks i groups,
      )

  pub all_chunks-All :
      (P : Item → Type 0) (groups : List (List Item))
      → All (All P) groups
      → All (All P) (all_chunks max_originals max_sources groups)
  unfolding all_chunks
  all_chunks-All P [] h = tt
  all_chunks-All P (group ∷ groups) (here, rest) =
      All-append (All P) (chunks_of size_of max_originals max_sources group) _
        (All-unjoin P _
          (subst (All P) (sym (joined-chunks_of size_of max_originals max_sources group)) here))
        (all_chunks-All P groups rest)

  small :
      (entries : List Entry) (items : List Item)
      → All (IsItem max_sources entries) items
      → All (λ item. size_of item ≤ max_sources) items
  small entries [] h = tt
  small entries (item ∷ items) (here, rest) = (here.1, small entries items rest)

  pub all_chunks-IsWithin :
      (entries : List Entry) (groups : List (List Item))
      → 1 ≤ max_originals
      → All (All (IsItem max_sources entries)) groups
      → All
          (IsWithin size_of max_originals max_sources)
          (all_chunks max_originals max_sources groups)
  unfolding all_chunks
  all_chunks-IsWithin entries [] p h = tt
  all_chunks-IsWithin entries (group ∷ groups) p (here, rest) =
      All-append (IsWithin size_of max_originals max_sources)
        (chunks_of size_of max_originals max_sources group) _
        (chunks_of-IsWithin size_of max_originals max_sources group p (small entries group here))
        (all_chunks-IsWithin entries groups p rest)

  pub length-members :
      (chunk : List Item)
      → length (concat (map (λ item. item.members) chunk))
        ≡ total size_of max_originals max_sources chunk
  unfolding concat
  length-members [] = refl
  length-members (item ∷ chunk) = omega (
    arith,
    length-append item.members (concat (map (λ item. item.members) chunk)),
    length-members chunk,
  )
