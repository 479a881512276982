-- ===== src/Prelude/Sets.antt =====
-- Python's sets, as lists that are read only by `in`: a value may stand in the list more than once.
use mathlib.Core.Path.{◌≡◌, refl}
use mathlib.Core.Logic.{inl, inr}
use mathlib.Core.Bool.{Bool, true, false, not, ◌&&◌, ◌||◌}
use mathlib.Core.List.{List, [], ◌∷◌, ◌++◌}
use native.Mathlib.Omega.{arith}
use nvim_dot_files.Prelude.Tests.{if◌then◌else◌, Bool-cases}
use nvim_dot_files.Prelude.Sorting.{Order, insert_by, sorted_by}
use nvim_dot_files.Prelude.Equality.{Eq, ◌==◌, beq_self}

module _ {ℓ} {A : Type ℓ} where
  -- `all(test(x) for x in xs)` and `any(test(x) for x in xs)`
  unfoldable pub every : (A → Bool) → List A → Bool
  every test [] = true
  every test (x ∷ xs) = test x && every test xs

  unfoldable pub some_of : (A → Bool) → List A → Bool
  some_of test [] = false
  some_of test (x ∷ xs) = test x || some_of test xs

  -- `[x for x in xs if test(x)]`
  unfoldable pub keep_if : (A → Bool) → List A → List A
  keep_if test [] = []
  keep_if test (x ∷ xs) = if test x then x ∷ keep_if test xs else keep_if test xs

module _ {ℓ} {A : Type ℓ} ⦃e : Eq A⦄ where
  -- `x in s`
  unfoldable pub mem : A → List A → Bool
  mem x [] = false
  mem x (y ∷ ys) = x == y || mem x ys

  -- `s <= t`
  unfoldable pub subset : List A → List A → Bool
  unfolding every mem
  subset s t = every (λ x. mem x t) s

  -- `s == t`
  unfoldable pub same_set : List A → List A → Bool
  unfolding subset
  same_set s t = subset s t && subset t s

  -- `s - t`
  unfoldable pub difference : List A → List A → List A
  unfolding keep_if mem
  difference s t = keep_if (λ x. not (mem x t)) s

  -- `s & t` is not empty
  unfoldable pub meets : List A → List A → Bool
  unfolding some_of mem
  meets s t = some_of (λ x. mem x t) s

  -- `s.add(x)`
  unfoldable pub adjoin : A → List A → List A
  unfolding mem
  adjoin x s = if mem x s then s else s ++ x ∷ []

  pub mem-append : (x : A) (s t : List A) → mem x (s ++ t) ≡ (mem x s || mem x t)
  unfolding mem
  mem-append x [] t = refl
  mem-append x (y ∷ s) t = ground (arith, mem-append x s t)

  pub mem-adjoin : (y x : A) (s : List A) → mem y (adjoin x s) ≡ (y == x || mem y s)
  unfolding adjoin mem
  mem-adjoin y x s = ground (arith, mem-append y s (x ∷ []), e.beq_iff y x)

  pub every-mem :
      (test : A → Bool) (xs : List A) (x : A)
      → every test xs ≡ true
      → mem x xs ≡ true
      → test x ≡ true
  unfolding every mem
  every-mem test [] x h m = cc
  every-mem test (y ∷ ys) x h m = ground (arith, e.beq_iff x y, every-mem test ys x)

  pub every_of :
      (test : A → Bool) (xs : List A)
      → ((x : A) → mem x xs ≡ true → test x ≡ true)
      → every test xs ≡ true
  unfolding every mem
  every_of test [] h = refl
  every_of test (y ∷ ys) h =
      ground (arith, h y, beq_self y, every_of test ys (λ x m. ground (arith, h x)))

  pub some_of-mem :
      (test : A → Bool) (xs : List A) (x : A)
      → mem x xs ≡ true
      → test x ≡ true
      → some_of test xs ≡ true
  unfolding some_of mem
  some_of-mem test [] x m h = cc
  some_of-mem test (y ∷ ys) x m h = ground (arith, e.beq_iff x y, some_of-mem test ys x)

  pub mem_of_some_of :
      (test : A → Bool) (xs : List A)
      → some_of test xs ≡ true
      → (x : A) × (mem x xs ≡ true) × (test x ≡ true)
  unfolding some_of mem
  mem_of_some_of test [] h = cc
  mem_of_some_of test (y ∷ ys) h = elim (Bool-cases (test y)) [
    | inl here ↦ (y, ground (arith, beq_self y), here)
    | inr not_here ↦ let (x, m, t) = mem_of_some_of test ys (ground arith) in (x, ground arith, t)
  ]

  pub mem-keep_if :
      (test : A → Bool) (xs : List A) (x : A) → mem x (keep_if test xs) ≡ (mem x xs && test x)
  unfolding keep_if mem
  mem-keep_if test [] x = refl
  mem-keep_if test (y ∷ ys) x = ground (arith, e.beq_iff x y, mem-keep_if test ys x)

  pub subset-mem : (s t : List A) (x : A) → subset s t ≡ true → mem x s ≡ true → mem x t ≡ true
  unfolding subset
  subset-mem s t x h m = every-mem (λ y. mem y t) s x h m

  pub subset_of : (s t : List A) → ((x : A) → mem x s ≡ true → mem x t ≡ true) → subset s t ≡ true
  unfolding subset
  subset_of s t h = every_of (λ y. mem y t) s h

  pub same_set-mem : (s t : List A) (x : A) → same_set s t ≡ true → mem x s ≡ mem x t
  unfolding same_set
  same_set-mem s t x h = ground (arith, subset-mem s t x, subset-mem t s x)

  pub same_set_of : (s t : List A) → ((x : A) → mem x s ≡ mem x t) → same_set s t ≡ true
  unfolding same_set
  same_set_of s t h = ground (
    arith,
    subset_of s t (λ x m. ground (arith, h x)),
    subset_of t s (λ x m. ground (arith, h x)),
  )

  pub same_set_self : (s : List A) → same_set s s ≡ true
  same_set_self s = same_set_of s s (λ x. refl)

  pub mem-difference : (s t : List A) (x : A) → mem x (difference s t) ≡ (mem x s && not (mem x t))
  unfolding difference
  mem-difference s t x = mem-keep_if (λ y. not (mem y t)) s x

  pub no_mem : (s : List A) → ((x : A) → mem x s ≡ false) → s ≡ []
  unfolding mem
  no_mem [] h = refl
  no_mem (y ∷ s) h = ground (arith, h y, beq_self y)

  pub subset-difference : (s t : List A) → difference s t ≡ [] → subset s t ≡ true
  unfolding mem
  subset-difference s t h = subset_of s t λ x m.
      let gone : mem x (difference s t) ≡ false = rw h refl in
      ground (arith, mem-difference s t x, gone)

  pub difference-subset : (s t : List A) → subset s t ≡ true → difference s t ≡ []
  difference-subset s t h =
      no_mem (difference s t) (λ x. ground (arith, mem-difference s t x, subset-mem s t x h))

  mem-insert_by {κ} :
      {K : Type κ} (o : Order K) (key : A → K) (x y : A) (xs : List A)
      → mem x (insert_by o key y xs) ≡ (x == y || mem x xs)
  unfolding insert_by mem
  mem-insert_by o key x y [] = refl
  mem-insert_by o key x y (z ∷ zs) = ground (arith, mem-insert_by o key x y zs)

  -- Sorting keeps the members.
  pub mem-sorted_by {κ} :
      {K : Type κ} (o : Order K) (key : A → K) (x : A) (xs : List A)
      → mem x (sorted_by o key xs) ≡ mem x xs
  unfolding sorted_by mem
  mem-sorted_by o key x [] = refl
  mem-sorted_by o key x (y ∷ ys) =
      ground (arith, mem-insert_by o key x y (sorted_by o key ys), mem-sorted_by o key x ys)
