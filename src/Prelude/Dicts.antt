-- ===== src/Prelude/Dicts.antt =====
-- Python's dictionaries, as association lists in the order of insertion.
use mathlib.Core.Path.{◌≡◌, refl}
use mathlib.Core.Logic.{inl, inr}
use mathlib.Core.Bool.{Bool, true, false, ◌||◌}
use mathlib.Core.List.{List, [], ◌∷◌, map}
use mathlib.Core.Option.{Option, none, some}
use native.Mathlib.Omega.{arith}
use nvim_dot_files.Prelude.Tests.{if◌then◌else◌, Bool-cases}
use nvim_dot_files.Prelude.Equality.{Eq, ◌==◌, beq_eq}
use nvim_dot_files.Prelude.Sets.{mem}

abbrev pub Dict {ℓ κ} : Type ℓ → Type κ → Type (ℓ ⊔ κ)
Dict K V = List (K × V)

module _ {ℓ κ} {K : Type ℓ} {V : Type κ} where
  abbrev pub keys : Dict K V → List K
  keys = map (λ p. p.0)

  abbrev pub values : Dict K V → List V
  values = map (λ p. p.1)

abbrev pub option_or {ℓ} : {A : Type ℓ} → A → Option A → A
option_or d none = d
option_or d (some a) = a

abbrev pub is_some {ℓ} : {A : Type ℓ} → Option A → Bool
is_some none = false
is_some (some a) = true

module _ {ℓ κ} {K : Type ℓ} {V : Type κ} ⦃e : Eq K⦄ where
  -- `d.get(k)`
  unfoldable pub at : K → Dict K V → Option V
  at k [] = none
  at k ((j, v) ∷ d) = if k == j then some v else at k d

  -- `d[k] = v`: a key keeps its place, and a new one comes last.
  unfoldable pub assign : K → V → Dict K V → Dict K V
  assign k v [] = (k, v) ∷ []
  assign k v ((j, w) ∷ d) = if k == j then (j, v) ∷ d else (j, w) ∷ assign k v d

  -- `d.pop(k, None)`
  unfoldable pub discard : K → Dict K V → Dict K V
  discard k [] = []
  discard k ((j, v) ∷ d) = if k == j then discard k d else (j, v) ∷ discard k d

  -- `f` of `d.setdefault(k, initial)`
  unfoldable pub revise : K → V → (V → V) → Dict K V → Dict K V
  unfolding at assign
  revise k initial f d = assign k (f (option_or initial (at k d))) d

  pub at-assign :
      (j k : K) (v : V) (d : Dict K V) → at j (assign k v d) ≡ (if j == k then some v else at j d)
  unfolding at assign
  at-assign j k v [] = refl
  at-assign j k v ((i, w) ∷ d) =
      ground (arith, e.beq_iff j k, e.beq_iff k i, e.beq_iff j i, at-assign j k v d)

  pub at-revise :
      (j k : K) (initial : V) (f : V → V) (d : Dict K V)
      → at j (revise k initial f d)
        ≡ (if j == k then some (f (option_or initial (at j d))) else at j d)
  unfolding revise
  at-revise j k initial f d = elim (Bool-cases (j == k)) [
    | inl same ↦ rw (at-assign j k (f (option_or initial (at k d))) d, same, beq_eq j k same) refl
    | inr other ↦ rw (at-assign j k (f (option_or initial (at k d))) d, other) refl
  ]

  pub mem-keys : (k : K) (d : Dict K V) → mem k (keys d) ≡ is_some (at k d)
  unfolding mem at
  mem-keys k [] = refl
  mem-keys k ((j, v) ∷ d) = ground (arith, mem-keys k d)

  pub at-discard : (j k : K) (d : Dict K V) → at j (discard k d) ≡ (if j == k then none else at j d)
  unfolding at discard
  at-discard j k [] = ground arith
  at-discard j k ((i, w) ∷ d) =
      ground (arith, e.beq_iff j k, e.beq_iff k i, e.beq_iff j i, at-discard j k d)

  pub mem-keys-assign :
      (j k : K) (v : V) (d : Dict K V) → mem j (keys (assign k v d)) ≡ (j == k || mem j (keys d))
  mem-keys-assign j k v d =
      ground (arith, mem-keys j (assign k v d), mem-keys j d, at-assign j k v d)

  pub mem-keys-revise :
      (j k : K) (v : V) (f : V → V) (d : Dict K V)
      → mem j (keys (revise k v f d)) ≡ (j == k || mem j (keys d))
  mem-keys-revise j k v f d =
      ground (arith, mem-keys j (revise k v f d), mem-keys j d, at-revise j k v f d)
