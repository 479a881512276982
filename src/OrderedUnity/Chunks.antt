-- ===== src/OrderedUnity/Chunks.antt =====
-- The chunks of `build_candidates` in tools/cdb_ordered_unity.py: each group is cut, in its order, where
-- the next item would pass a budget.
use nvim_dot_files.Prelude.{
  ℕ, ◌+◌, ◌≡◌, ◌≤◌, ◌<◌, refl, Bool, false, ◌||◌, List, [], ◌∷◌, ◌++◌, append_assoc, All, length,
  length-append, ltb, leb, if◌then◌else◌, Bool-cases, inl, inr, arith,
}

-- The lists one after the other.
abbrev pub joined {ℓ} : {A : Type ℓ} → List (List A) → List A
joined [] = []
joined (chunk ∷ chunks) = chunk ++ joined chunks

module _ {A : Type 0} (size : A → ℕ) (max_originals max_sources : ℕ) where
  -- Whether an item of some size would pass a budget.
  unfoldable pub is_full : List A → ℕ → ℕ → Bool
  is_full chunk count more = leb max_originals (length chunk) || ltb max_sources (count + more)

  -- The loop, with the chunk that is filled and its size.
  unfoldable pub chunk_loop : List A → List A → ℕ → List (List A)
  unfolding is_full
  chunk_loop [] [] count = []
  chunk_loop [] (a ∷ chunk) count = (a ∷ chunk) ∷ []
  chunk_loop (item ∷ items) [] count = chunk_loop items (item ∷ []) (count + size item)
  chunk_loop (item ∷ items) (a ∷ chunk) count =
      let cut = chunk_loop items (item ∷ []) (0 + size item) in
      let filled = chunk_loop items (a ∷ chunk ++ item ∷ []) (count + size item) in
      if is_full (a ∷ chunk) count (size item) then (a ∷ chunk) ∷ cut else filled

  unfoldable pub chunks_of : List A → List (List A)
  unfolding chunk_loop
  chunks_of items = chunk_loop items [] 0

  abbrev pub total : List A → ℕ
  total [] = 0
  total (a ∷ rest) = size a + total rest

  total-append : (s t : List A) → total (s ++ t) ≡ total s + total t
  total-append [] t = omega arith
  total-append (a ∷ s) t = omega (arith, total-append s t)

  -- A chunk within the budgets.
  abbrev pub IsWithin : List A → Type 0
  IsWithin chunk = (1 ≤ length chunk) × (length chunk ≤ max_originals) × (total chunk ≤ max_sources)

  not_full :
      (chunk : List A) (count more : ℕ)
      → is_full chunk count more ≡ false
      → (length chunk < max_originals) × (count + more ≤ max_sources)
  unfolding is_full
  not_full chunk count more h = (ground arith, ground arith)

  loop-IsWithin :
      (items chunk : List A) (count : ℕ)
      → 1 ≤ max_originals
      → All (λ a. size a ≤ max_sources) items
      → count ≡ total chunk
      → length chunk ≤ max_originals
      → total chunk ≤ max_sources
      → All IsWithin (chunk_loop items chunk count)
  unfolding chunk_loop
  loop-IsWithin [] [] count p h c l t = tt
  loop-IsWithin [] (a ∷ chunk) count p h c l t = ((omega arith, l, t), tt)
  loop-IsWithin (item ∷ items) [] count p (fits, h) c l t =
      loop-IsWithin items (item ∷ []) (count + size item) p h (omega arith) (omega arith)
        (omega arith)
  loop-IsWithin (item ∷ items) (a ∷ chunk) count p (fits, h) c l t =
      elim (Bool-cases (is_full (a ∷ chunk) count (size item))) [
        | inl full ↦ rw full (
          (omega arith, l, t),
          loop-IsWithin items (item ∷ []) (0 + size item) p h (omega arith) (omega arith)
              (omega arith),
        )
        | inr room ↦
            let (few, small) = not_full (a ∷ chunk) count (size item) room in
            let added = total-append chunk (item ∷ []) in
            rw room (
              loop-IsWithin items (a ∷ chunk ++ item ∷ []) (count + size item) p h (omega arith)
                (omega (arith, length-append chunk (item ∷ []))) (omega arith))
      ]

  -- Every chunk has an item and keeps the budgets, where each item alone keeps them.
  pub chunks_of-IsWithin :
      (items : List A)
      → 1 ≤ max_originals
      → All (λ a. size a ≤ max_sources) items
      → All IsWithin (chunks_of items)
  unfolding chunks_of
  chunks_of-IsWithin items p h = loop-IsWithin items [] 0 p h refl (omega arith) (omega arith)

  joined-loop :
      (items chunk : List A) (count : ℕ) → joined (chunk_loop items chunk count) ≡ chunk ++ items
  unfolding chunk_loop
  joined-loop [] [] count = refl
  joined-loop [] (a ∷ chunk) count = refl
  joined-loop (item ∷ items) [] count = joined-loop items (item ∷ []) (count + size item)
  joined-loop (item ∷ items) (a ∷ chunk) count =
      elim (Bool-cases (is_full (a ∷ chunk) count (size item))) [
        | inl full ↦ rw (full, joined-loop items (item ∷ []) (0 + size item)) refl
        | inr room ↦
            rw (room, joined-loop items (a ∷ chunk ++ item ∷ []) (count + size item))
              (append_assoc (a ∷ chunk) (item ∷ []) items)
      ]

  -- The chunks, one after the other, are the items in their order.
  pub joined-chunks_of : (items : List A) → joined (chunks_of items) ≡ items
  unfolding chunks_of
  joined-chunks_of items = joined-loop items [] 0
