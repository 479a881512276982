-- ===== src/Prelude/Sorting.antt =====
-- Python's `sorted(items, key=key)`, over a total order of the keys. Insertion from the right keeps the
-- order of items with equal keys, as Python's stable sort does.
use mathlib.Core.Path.{◌≡◌, refl, ◌∙◌}
use mathlib.Core.Logic.{inl, inr, ∥∥₁_elim}
use mathlib.Core.Bool.{Bool, true, false}
use mathlib.Core.List.{List, [], ◌∷◌, Perm, Permᴰ}
use mathlib.Core.List.Perm
use native.Mathlib.Omega.{arith}
use nvim_dot_files.Prelude.Tests.{if◌then◌else◌, Bool-cases}

-- A total order, by its test.
pub record Order {ℓ} (A : Type ℓ) : Type ℓ where
  pub le : A → A → Bool
  pub total : (a b : A) → le a b ≡ false → le b a ≡ true
  pub antisym : (a b : A) → le a b ≡ true → le b a ≡ true → a ≡ b
  pub trans : (a b c : A) → le a b ≡ true → le b c ≡ true → le a c ≡ true

module _ {ℓ κ} {A : Type ℓ} {K : Type κ} (o : Order K) (key : A → K) where
  unfoldable pub insert_by : A → List A → List A
  insert_by x [] = x ∷ []
  insert_by x (y ∷ ys) =
      let rest = insert_by x ys in if o.le (key x) (key y) then x ∷ y ∷ ys else y ∷ rest

  unfoldable pub sorted_by : List A → List A
  unfolding insert_by
  sorted_by [] = []
  sorted_by (x ∷ xs) = insert_by x (sorted_by xs)

  insert_by-perm : (x : A) (xs : List A) → Perm (insert_by x xs) (x ∷ xs)
  unfolding insert_by
  insert_by-perm x [] = Perm.refl _
  insert_by-perm x (y ∷ ys) = elim (Bool-cases (o.le (key x) (key y))) [
    | inl before ↦ rw before (Perm.refl _)
    | inr after ↦ rw after (Perm.trans (Perm.cons y (insert_by-perm x ys)) (Perm.swap x y ys))
  ]

  -- Sorting rearranges, and neither drops nor repeats an item.
  pub sorted_by-perm : (xs : List A) → Perm (sorted_by xs) xs
  unfolding sorted_by
  sorted_by-perm [] = Perm.refl _
  sorted_by-perm (x ∷ xs) =
      Perm.trans (insert_by-perm x (sorted_by xs)) (Perm.cons x (sorted_by-perm xs))

  abbrev pub Follows : A → List A → Type 0
  Follows x [] = Unit
  Follows x (y ∷ ys) = o.le (key x) (key y) ≡ true

  abbrev pub IsSortedBy : List A → Type 0
  IsSortedBy [] = Unit
  IsSortedBy (x ∷ xs) = Follows x xs × IsSortedBy xs

  insert_by-Follows :
      (w x : A) (xs : List A)
      → o.le (key w) (key x) ≡ true
      → Follows w xs
      → Follows w (insert_by x xs)
  unfolding insert_by
  insert_by-Follows w x [] h f = h
  insert_by-Follows w x (y ∷ ys) h f = ground arith

  insert_by-IsSortedBy : (x : A) (xs : List A) → IsSortedBy xs → IsSortedBy (insert_by x xs)
  unfolding insert_by
  insert_by-IsSortedBy x [] s = (tt, tt)
  insert_by-IsSortedBy x (y ∷ ys) (f, s) = elim (Bool-cases (o.le (key x) (key y))) [
    | inl before ↦ rw before (before, (f, s))
    | inr after ↦
        rw after
          (insert_by-Follows y x ys (o.total (key x) (key y) after) f, insert_by-IsSortedBy x ys s)
  ]

  pub sorted_by-IsSortedBy : (xs : List A) → IsSortedBy (sorted_by xs)
  unfolding sorted_by
  sorted_by-IsSortedBy [] = tt
  sorted_by-IsSortedBy (x ∷ xs) = insert_by-IsSortedBy x (sorted_by xs) (sorted_by-IsSortedBy xs)

  module _ (injective : (a b : A) → key a ≡ key b → a ≡ b) where
    same_of : (a b : A) → o.le (key a) (key b) ≡ true → o.le (key b) (key a) ≡ true → a ≡ b
    same_of a b p q = injective a b (o.antisym (key a) (key b) p q)

    insert_by_comm :
        (x y : A) (xs : List A) → insert_by x (insert_by y xs) ≡ insert_by y (insert_by x xs)
    unfolding insert_by
    insert_by_comm x y [] = ground (arith, o.total (key x) (key y), same_of x y)
    insert_by_comm x y (z ∷ zs) = ground (
      arith,
      o.total (key x) (key y),
      o.total (key x) (key z),
      o.total (key y) (key z),
      o.trans (key x) (key y) (key z),
      o.trans (key y) (key x) (key z),
      same_of x y,
      insert_by_comm x y zs,
    )

    sorted_of_Permᴰ : {xs ys : List A} → Permᴰ xs ys → sorted_by xs ≡ sorted_by ys
    unfolding sorted_by
    sorted_of_Permᴰ Permᴰ.nil = refl
    sorted_of_Permᴰ (Permᴰ.cons e p) = cc (e, sorted_of_Permᴰ p)
    sorted_of_Permᴰ (Permᴰ.swap {a = a} {b = b} {a' = c} {b' = d} {l = l} e f) =
        cc (e, f, insert_by_comm a b (sorted_by l))
    sorted_of_Permᴰ (Permᴰ.trans p q) = sorted_of_Permᴰ p ∙ sorted_of_Permᴰ q

    -- The order in which the items came does not show: a key that tells items apart decides it.
    pub sorted_of_Perm : IsSet A → (xs ys : List A) → Perm xs ys → sorted_by xs ≡ sorted_by ys
    sorted_of_Perm s xs ys p =
        let lists : IsSet (List A) = hlevel s in
        ∥∥₁_elim p (lists (sorted_by xs) (sorted_by ys)) sorted_of_Permᴰ
