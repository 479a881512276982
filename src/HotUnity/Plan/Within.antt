-- ===== src/HotUnity/Plan/Within.antt =====
-- The planned chunks keep the budgets.
use nvim_dot_files.Prelude.{
  ℕ, suc, ◌+◌, ◌≡◌, ◌≤◌, refl, ap, subst, Option, none, some, true, false, List, [], ◌∷◌, ◌++◌, All,
  All-append, length, length-append, arith, Bool-cases, inl, inr,
}
use nvim_dot_files.HotUnity.Plan.{
  Unity, Limits, Chunk, empty_chunk, exceeds, is_started, must_cut, is_oversized, finish, grow,
  plan_loop, plan_buckets,
}

abbrev pub bytes_of : List Unity → ℕ
bytes_of [] = 0
bytes_of (u ∷ unities) = u.bytes + bytes_of unities

bytes-append : (s t : List Unity) → bytes_of (s ++ t) ≡ bytes_of s + bytes_of t
bytes-append [] t = omega arith
bytes-append (u ∷ s) t = omega (arith, bytes-append s t)

abbrev pub sources_in : List Unity → ℕ
sources_in [] = 0
sources_in (u ∷ unities) = u.sources + sources_in unities

sources-append : (s t : List Unity) → sources_in (s ++ t) ≡ sources_in s + sources_in t
sources-append [] t = omega arith
sources-append (u ∷ s) t = omega (arith, sources-append s t)

-- A limit on the number of sources, where there is one.
abbrev pub Allows : Option ℕ → ℕ → Type 0
Allows none n = Unit
Allows (some limit) n = n ≤ limit

exceeds-Allows : (limit : Option ℕ) (n : ℕ) → exceeds limit n ≡ false → Allows limit n
exceeds-Allows none n h = tt
exceeds-Allows (some limit) n h = ground arith

no-Allows : (limit : Option ℕ) → Allows limit 0
no-Allows none = tt
no-Allows (some limit) = omega arith

-- Two unities at least, and no more bytes, unities and sources than the limits allow.
abbrev pub IsPlanned : Limits → List Unity → Type 0
IsPlanned limits c =
    (2 ≤ length c)
    × (length c ≤ limits.max_unities)
    × (bytes_of c ≤ limits.byte_budget)
    × Allows limits.max_sources (sources_in c)

abbrev IsFilled : Limits → Chunk → Type 0
IsFilled limits c =
    (c.size ≡ bytes_of c.unities)
    × (length c.unities ≤ limits.max_unities)
    × (bytes_of c.unities ≤ limits.byte_budget)
    × (c.count ≡ sources_in c.unities)
    × Allows limits.max_sources (sources_in c.unities)

module _ (limits : Limits) (some_unities : 1 ≤ limits.max_unities) where
  finish-IsPlanned :
      (unities : List Unity)
      → length unities ≤ limits.max_unities
      → bytes_of unities ≤ limits.byte_budget
      → Allows limits.max_sources (sources_in unities)
      → All (IsPlanned limits) (finish unities)
  finish-IsPlanned [] l b a = tt
  finish-IsPlanned (u ∷ []) l b a = tt
  finish-IsPlanned (u ∷ v ∷ unities) l b a = ((omega arith, l, b, a), tt)

  fresh-IsFilled : IsFilled limits empty_chunk
  fresh-IsFilled = (refl, omega arith, omega arith, refl, no-Allows limits.max_sources)

  -- What is left of the budgets where the chunk is not cut.
  room :
      (u : Unity) (unities : List Unity) (c : Chunk)
      → c.unities ≡ unities
      → length c.unities ≤ limits.max_unities
      → c.size ≡ bytes_of c.unities
      → must_cut limits c u ≡ false
      → is_oversized limits u ≡ false
      → (suc (length c.unities) ≤ limits.max_unities) × (c.size + u.bytes ≤ limits.byte_budget)
  unfolding must_cut is_oversized
  room u [] c e l s open_chunk fits =
      let few : length c.unities ≡ 0 = ap length e in
      let small : bytes_of c.unities ≡ 0 = ap bytes_of e in (omega arith, ground arith)
  room u (v ∷ unities) c e l s open_chunk fits =
      let started : is_started c.unities ≡ true = ap is_started e in (ground arith, ground arith)

  few_sources :
      (u : Unity) (unities : List Unity) (c : Chunk)
      → c.unities ≡ unities
      → c.count ≡ sources_in c.unities
      → must_cut limits c u ≡ false
      → is_oversized limits u ≡ false
      → exceeds limits.max_sources (c.count + u.sources) ≡ false
  unfolding must_cut is_oversized
  few_sources u [] c e n open_chunk fits =
      let none_yet : sources_in c.unities ≡ 0 = ap sources_in e in
      let alone : u.sources ≡ c.count + u.sources = omega arith in
      subst (λ k. exceeds limits.max_sources k ≡ false) alone (ground arith)
  few_sources u (v ∷ unities) c e n open_chunk fits =
      let started : is_started c.unities ≡ true = ap is_started e in ground arith

  grow-IsFilled :
      (u : Unity) (c : Chunk)
      → IsFilled limits c
      → must_cut limits c u ≡ false
      → is_oversized limits u ≡ false
      → IsFilled limits (grow u c)
  grow-IsFilled u c (s, l, b, n, a) open_chunk fits =
      let (few, small) = room u c.unities c refl l s open_chunk fits in
      let sum = bytes-append c.unities (u ∷ []) in
      let more = length-append c.unities (u ∷ []) in
      let counted : c.count + u.sources ≡ sources_in (c.unities ++ u ∷ []) =
        omega (arith, sources-append c.unities (u ∷ [])) in
      let allowed =
        exceeds-Allows limits.max_sources (c.count + u.sources)
          (few_sources u c.unities c refl n open_chunk fits) in
      (
        omega arith,
        omega arith,
        omega arith,
        counted,
        subst (Allows limits.max_sources) counted allowed,
      )

  never_cut : (u : Unity) → must_cut limits empty_chunk u ≡ false
  unfolding must_cut
  never_cut u = refl

  plan_loop-IsPlanned :
      (unities : List Unity) (c : Chunk)
      → IsFilled limits c
      → All (IsPlanned limits) (plan_loop limits unities c)
  unfolding plan_loop
  plan_loop-IsPlanned [] c (s, l, b, n, a) = finish-IsPlanned c.unities l b a
  plan_loop-IsPlanned (u ∷ unities) c (s, l, b, n, a) = elim (Bool-cases (must_cut limits c u)) [
    | inl cut ↦ elim (Bool-cases (is_oversized limits u)) [
      | inl big ↦
          rw (cut, big)
            (All-append (IsPlanned limits) (finish c.unities) _ (finish-IsPlanned c.unities l b a)
              (plan_loop-IsPlanned unities empty_chunk fresh-IsFilled))
      | inr fits ↦
          rw (cut, fits)
            (All-append (IsPlanned limits) (finish c.unities) _ (finish-IsPlanned c.unities l b a) (
              plan_loop-IsPlanned unities (grow u empty_chunk)
                (grow-IsFilled u empty_chunk fresh-IsFilled (never_cut u) fits)))
    ]
    | inr kept ↦ elim (Bool-cases (is_oversized limits u)) [
      | inl big ↦ rw (kept, big) (plan_loop-IsPlanned unities c (s, l, b, n, a))
      | inr fits ↦
          rw (kept, fits)
            (plan_loop-IsPlanned unities (grow u c) (grow-IsFilled u c (s, l, b, n, a) kept fits))
    ]
  ]

  -- Every chunk that is planned has two unities at least, and no more unities and bytes than the limits
  -- allow, where these allow one unity, and no more sources, where there is a limit on them.
  pub plan_buckets-IsPlanned :
      (buckets : List (List Unity)) → All (IsPlanned limits) (plan_buckets limits buckets)
  unfolding plan_buckets
  plan_buckets-IsPlanned [] = tt
  plan_buckets-IsPlanned (bucket ∷ buckets) =
      All-append (IsPlanned limits) (plan_loop limits bucket empty_chunk) _
        (plan_loop-IsPlanned bucket empty_chunk fresh-IsFilled) (plan_buckets-IsPlanned buckets)
