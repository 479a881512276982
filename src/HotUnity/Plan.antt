-- ===== src/HotUnity/Plan.antt =====
-- `secondary_unity_chunks` of tools/build_hot_super_unity_cdb.py, from the buckets on: which unities of a
-- bucket are planned together.
pub mod Within
use nvim_dot_files.Prelude.{
  ℕ, zero, suc, ◌+◌, ◌-◌, ◌*◌, Bool, true, false, not, ◌||◌, ◌&&◌, List, [], ◌∷◌, ◌++◌, Option,
  none, some, map, ltb, leb, length, if◌then◌else◌, drop, take, Eq-number, Eq-list, ◌==◌,
}
use nvim_dot_files.Prelude.Texts.{Text, codes}
use nvim_dot_files.Prelude.Sets.{mem, meets, adjoin}

-- Of an original unity: its index, the bytes and the number of its members, and the stems of these.
pub record Unity : Type 0 where
  pub index : ℕ
  pub bytes : ℕ
  pub sources : ℕ
  pub source_stems : List Text
  pub generated_stems : List Text

pub record Limits : Type 0 where
  pub byte_budget : ℕ
  pub max_unities : ℕ
  pub max_sources : Option ℕ

-- The chunk that is filled.
pub record Chunk : Type 0 where
  pub unities : List Unity
  pub size : ℕ
  pub count : ℕ
  pub chunk_sources : List Text
  pub chunk_generated : List Text

abbrev pub empty_chunk : Chunk
empty_chunk = record { unities = []; size = 0; count = 0; chunk_sources = []; chunk_generated = [] }

-- `max_sources is not None and n > max_sources`
abbrev exceeds : Option ℕ → ℕ → Bool
exceeds none n = false
exceeds (some limit) n = ltb limit n

abbrev is_started : List Unity → Bool
is_started [] = false
is_started (u ∷ unities) = true

unfoldable pub must_cut : Limits → Chunk → Unity → Bool
unfolding meets
must_cut limits c u =
    is_started c.unities
    && (ltb limits.byte_budget (c.size + u.bytes)
        || (leb limits.max_unities (length c.unities)
            || (exceeds limits.max_sources (c.count + u.sources)
                || (meets u.source_stems c.chunk_generated
                    || meets u.generated_stems c.chunk_sources))))

-- An original that is retained for itself.
unfoldable pub is_oversized : Limits → Unity → Bool
is_oversized limits u = ltb limits.byte_budget u.bytes || exceeds limits.max_sources u.sources

-- `if len(chunk) > 1: chunks.append(chunk)`
abbrev pub finish : List Unity → List (List Unity)
finish [] = []
finish (u ∷ []) = []
finish (u ∷ v ∷ unities) = (u ∷ v ∷ unities) ∷ []

abbrev pub grow : Unity → Chunk → Chunk
grow u c = record {
  unities = c.unities ++ u ∷ [];
  size = c.size + u.bytes;
  count = c.count + u.sources;
  chunk_sources = c.chunk_sources ++ u.source_stems;
  chunk_generated = c.chunk_generated ++ u.generated_stems;
}

-- The loop over a bucket.
unfoldable pub plan_loop : Limits → List Unity → Chunk → List (List Unity)
unfolding must_cut is_oversized
plan_loop limits [] c = finish c.unities
plan_loop limits (u ∷ unities) c =
    let skipped = plan_loop limits unities c in
    let grown = plan_loop limits unities (grow u c) in
    let fresh = plan_loop limits unities empty_chunk in
    let started = plan_loop limits unities (grow u empty_chunk) in
    if must_cut limits c u
    then finish c.unities ++ (if is_oversized limits u then fresh else started)
    else if is_oversized limits u
    then skipped
    else grown

unfoldable pub plan_buckets : Limits → List (List Unity) → List (List Unity)
unfolding plan_loop
plan_buckets limits [] = []
plan_buckets limits (bucket ∷ buckets) =
    plan_loop limits bucket empty_chunk ++ plan_buckets limits buckets

-- `sorted(chunks, key=lambda chunk: chunk[0])`
abbrev first_index : List Unity → ℕ
first_index [] = 0
first_index (u ∷ unities) = u.index

unfoldable pub insert_chunk : List Unity → List (List Unity) → List (List Unity)
insert_chunk c [] = c ∷ []
insert_chunk c (d ∷ chunks) =
    let rest = insert_chunk c chunks in
    if leb (first_index c) (first_index d) then c ∷ d ∷ chunks else d ∷ rest

unfoldable pub sort_chunks : List (List Unity) → List (List Unity)
unfolding insert_chunk
sort_chunks [] = []
sort_chunks (c ∷ chunks) = insert_chunk c (sort_chunks chunks)

abbrev is_positive_or_none : Option ℕ → Bool
is_positive_or_none none = true
is_positive_or_none (some n) = ltb 0 n

-- `none` where a budget is not positive, which raises.
unfoldable pub secondary_unity_chunks :
    ℕ → ℕ → Option ℕ → List (List Unity) → Option (List (List ℕ))
unfolding plan_buckets sort_chunks
secondary_unity_chunks budget_factor max_unities max_sources buckets =
    if ltb budget_factor 1 || (ltb max_unities 1 || not (is_positive_or_none max_sources))
    then none
    else some (
        map (map (λ u. u.index)) (
          sort_chunks (
            plan_buckets
              (record {
                byte_budget = budget_factor * 393216;
                max_unities = max_unities;
                max_sources = max_sources;
              })
              buckets)))
