-- ===== src/OrderedUnity/Candidates/Records.antt =====
-- The loop over the chunks: what its records say, and that no index is lost or used twice.
use nvim_dot_files.Prelude.{
  ℕ, suc, ◌+◌, ◌≡◌, ◌≤◌, refl, ap, Bool, List, [], ◌∷◌, ◌++◌, some, map, All, All-append, length,
  get_elem?, arith, Eq-number,
}
use nvim_dot_files.Prelude.Texts.{Text}
use nvim_dot_files.Prelude.Sets.{mem, mem-adjoin}
use nvim_dot_files.OrderedUnity.Parse.{Host, Entry}
use nvim_dot_files.OrderedUnity.Chunks.{IsWithin}
use nvim_dot_files.OrderedUnity.Grouping.{Item, HeaderCache}
use nvim_dot_files.OrderedUnity.Grouping.Items.{IsItem}
use nvim_dot_files.OrderedUnity.Grouping.Counted.{times, times-append, indexes, counted, one_if}
use nvim_dot_files.OrderedUnity.Candidates.{
  size_of, Record, record_of, Made, keep_single, make_candidate, make_candidates,
}
use nvim_dot_files.OrderedUnity.Candidates.Chunked.{length-members}

-- The indexes of some records.
abbrev pub listed : List Record → List ℕ
listed [] = []
listed (r ∷ records) = r.original_indexes ++ listed records

times-listed :
    (i : ℕ) (records : List Record) (r : Record)
    → times i (listed (records ++ r ∷ [])) ≡ times i (listed records) + times i r.original_indexes
times-listed i [] r = omega (arith, times-append i r.original_indexes [])
times-listed i (q ∷ records) r = omega (
  arith,
  times-append i q.original_indexes (listed (records ++ r ∷ [])),
  times-append i q.original_indexes (listed records),
  times-listed i records r,
)

-- A record is of two entries at least, keeps the budgets, and names the entries by their indexes.
abbrev pub IsRecord : ℕ → ℕ → List Entry → Record → Type 0
IsRecord max_originals max_sources entries r =
    (2 ≤ length r.original_indexes)
    × (length r.original_indexes ≤ max_originals)
    × (length r.members ≤ max_sources)
    × (map (get_elem? entries) r.original_indexes ≡ map some r.original_entries)

length-indexes : (chunk : List Item) → length (indexes chunk) ≡ length chunk
length-indexes [] = refl
length-indexes (item ∷ chunk) = ap suc (length-indexes chunk)

found :
    (max_sources : ℕ) (entries : List Entry) (chunk : List Item)
    → All (IsItem max_sources entries) chunk
    → map (get_elem? entries) (indexes chunk) ≡ map some (map (λ item. item.entry) chunk)
found max_sources entries [] h = refl
found max_sources entries (item ∷ chunk) ((e, few), rest) =
    rw (e, found max_sources entries chunk rest) refl

module _ (host : Host) (output : Text) (headers : HeaderCache) where
  record_of-IsRecord :
      (max_originals max_sources : ℕ) (entries : List Entry) (first second : Item)
      (others : List Item)
      → IsWithin size_of max_originals max_sources (first ∷ second ∷ others)
      → All (IsItem max_sources entries) (first ∷ second ∷ others)
      → IsRecord max_originals max_sources entries
          (record_of host output headers first (second ∷ others)).0
  unfolding record_of
  record_of-IsRecord max_originals max_sources entries first second others (p, few, small) h =
      let chunk = first ∷ second ∷ others in
      (
        omega arith,
        omega (arith, length-indexes chunk),
        omega (arith, length-members max_originals max_sources chunk),
        found max_sources entries chunk h,
      )

  indexes-record_of :
      (first : Item) (others : List Item)
      → (record_of host output headers first others).0.original_indexes ≡ indexes (first ∷ others)
  unfolding record_of
  indexes-record_of first others = refl

  -- What is done and what is to do, together.
  abbrev pub IsTallied : (ℕ → Bool) → Made → List (List Item) → Type 0
  IsTallied used m chunks =
      (i : ℕ)
      → times i (listed m.records) + (one_if (mem i m.retained) + counted i chunks)
        ≡ one_if (used i)

  single-IsTallied :
      (used : ℕ → Bool) (item : Item) (m : Made) (chunks : List (List Item))
      → IsTallied used m ((item ∷ []) ∷ chunks)
      → IsTallied used (keep_single item m) chunks
  single-IsTallied used item m chunks h i = ground (arith, h i, mem-adjoin i item.index m.retained)

  make_candidate-IsTallied :
      (used : ℕ → Bool) (chunk : List Item) (m : Made) (chunks : List (List Item))
      → IsTallied used m (chunk ∷ chunks)
      → IsTallied used (make_candidate host output headers chunk m) chunks
  unfolding make_candidate
  make_candidate-IsTallied used [] m chunks h i = omega (arith, h i)
  make_candidate-IsTallied used (item ∷ []) m chunks h i = single-IsTallied used item m chunks h i
  make_candidate-IsTallied used (first ∷ second ∷ others) m chunks h i =
      let r = (record_of host output headers first (second ∷ others)).0 in
      let same : times i r.original_indexes ≡ times i (indexes (first ∷ second ∷ others)) =
        ap (times i) (indexes-record_of first (second ∷ others)) in
      omega (arith, h i, times-listed i m.records r)

  pub make_candidates-IsTallied :
      (used : ℕ → Bool) (chunks : List (List Item)) (m : Made)
      → IsTallied used m chunks
      → IsTallied used (make_candidates host output headers chunks m) []
  unfolding make_candidates
  make_candidates-IsTallied used [] m h = h
  make_candidates-IsTallied used (chunk ∷ chunks) m h =
      make_candidates-IsTallied used chunks (make_candidate host output headers chunk m)
        (make_candidate-IsTallied used chunk m chunks h)

  make_candidate-IsRecord :
      (max_originals max_sources : ℕ) (entries : List Entry) (chunk : List Item) (m : Made)
      → IsWithin size_of max_originals max_sources chunk
      → All (IsItem max_sources entries) chunk
      → All (IsRecord max_originals max_sources entries) m.records
      → All
          (IsRecord max_originals max_sources entries)
          (make_candidate host output headers chunk m).records
  unfolding make_candidate
  make_candidate-IsRecord max_originals max_sources entries [] m within items h = h
  make_candidate-IsRecord max_originals max_sources entries (item ∷ []) m within items h = h
  make_candidate-IsRecord max_originals max_sources entries (first ∷ second ∷ others) m within items
        h =
      All-append (IsRecord max_originals max_sources entries) m.records _ h
        (record_of-IsRecord max_originals max_sources entries first second others within items, tt)

  pub make_candidates-IsRecord :
      (max_originals max_sources : ℕ) (entries : List Entry) (chunks : List (List Item)) (m : Made)
      → All (IsWithin size_of max_originals max_sources) chunks
      → All (All (IsItem max_sources entries)) chunks
      → All (IsRecord max_originals max_sources entries) m.records
      → All
          (IsRecord max_originals max_sources entries)
          (make_candidates host output headers chunks m).records
  unfolding make_candidates
  make_candidates-IsRecord max_originals max_sources entries [] m within items h = h
  make_candidates-IsRecord max_originals max_sources entries (chunk ∷ chunks) m (w, within)
        (i, items) h =
      make_candidates-IsRecord max_originals max_sources entries chunks
        (make_candidate host output headers chunk m) within items
        (make_candidate-IsRecord max_originals max_sources entries chunk m w i h)
