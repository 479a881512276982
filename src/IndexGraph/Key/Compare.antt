-- ===== src/IndexGraph/Key/Compare.antt =====
-- Python's order of keys, and its laws.
use Prim.Native.Nat.{ℕ, compare, Ordering}
use nvim_dot_files.Prelude.{◌≡◌, ◌↔◌, Eq, refl, ap, Bool, true, false, [], ◌∷◌, arith}
use nvim_dot_files.Prelude.Sorting.{Order}
use nvim_dot_files.IndexGraph.Reader.{Text}
use nvim_dot_files.IndexGraph.Key.{Key, Keys, number, text, tuple, stop, item}

abbrev then_by : Ordering → Ordering → Ordering
then_by Ordering.lt o = Ordering.lt
then_by Ordering.eq o = o
then_by Ordering.gt o = Ordering.gt

unfoldable pub compare_text : Text → Text → Ordering
compare_text [] [] = Ordering.eq
compare_text [] (b ∷ bs) = Ordering.lt
compare_text (a ∷ as') [] = Ordering.gt
compare_text (a ∷ as') (b ∷ bs) = then_by (compare a b) (compare_text as' bs)

-- Keys of one kind of record have one shape. Python would raise a `TypeError` at two of different
-- shapes; here the kinds are ordered as they are declared.
unfoldable mutual
  unfolding compare_text

  pub compare_key : Key → Key → Ordering
  compare_key (number a) (number b) = compare a b
  compare_key (number a) (text t) = Ordering.lt
  compare_key (number a) (tuple ks) = Ordering.lt
  compare_key (text s) (number b) = Ordering.gt
  compare_key (text s) (text t) = compare_text s t
  compare_key (text s) (tuple ks) = Ordering.lt
  compare_key (tuple js) (number b) = Ordering.gt
  compare_key (tuple js) (text t) = Ordering.gt
  compare_key (tuple js) (tuple ks) = compare_keys js ks

  pub compare_keys : Keys → Keys → Ordering
  compare_keys stop stop = Ordering.eq
  compare_keys stop (item k ks) = Ordering.lt
  compare_keys (item j js) stop = Ordering.gt
  compare_keys (item j js) (item k ks) = then_by (compare_key j k) (compare_keys js ks)

abbrev pub flip : Ordering → Ordering
flip Ordering.lt = Ordering.gt
flip Ordering.eq = Ordering.eq
flip Ordering.gt = Ordering.lt

then_by-flip : (o p : Ordering) → then_by (flip o) (flip p) ≡ flip (then_by o p)
then_by-flip Ordering.lt p = refl
then_by-flip Ordering.eq p = refl
then_by-flip Ordering.gt p = refl

then_by_eq : (o p : Ordering) → then_by o p ≡ Ordering.eq → (o ≡ Ordering.eq) × (p ≡ Ordering.eq)
then_by_eq Ordering.lt p e = cc
then_by_eq Ordering.eq p e = (refl, e)
then_by_eq Ordering.gt p e = cc

compare_eq : (a b : ℕ) → compare a b ≡ Ordering.eq → a ≡ b
compare_eq a b e = ground arith

compare-flip : (a b : ℕ) → compare b a ≡ flip (compare a b)
compare-flip a b = ground arith

compare_trans :
    (a b c : ℕ) → compare a b ≡ Ordering.lt → compare b c ≡ Ordering.lt → compare a c ≡ Ordering.lt
compare_trans a b c e f = ground arith

pub text_eq : (s t : Text) → compare_text s t ≡ Ordering.eq → s ≡ t
unfolding compare_text
text_eq [] [] e = refl
text_eq [] (b ∷ t) e = cc
text_eq (a ∷ s) [] e = cc
text_eq (a ∷ s) (b ∷ t) e =
    let (p, q) = then_by_eq (compare a b) (compare_text s t) e in
    cc (compare_eq a b p, text_eq s t q)

pub text_flip : (s t : Text) → compare_text t s ≡ flip (compare_text s t)
unfolding compare_text
text_flip [] [] = refl
text_flip [] (b ∷ t) = refl
text_flip (a ∷ s) [] = refl
text_flip (a ∷ s) (b ∷ t) =
    rw (compare-flip a b, text_flip s t) (then_by-flip (compare a b) (compare_text s t))

-- One step of transitivity for a lexicographic order.
then_by_trans :
    {A : Type 0} (x y z : A) (cmp : A → A → Ordering) (o p q : Ordering)
    → ((u v : A) → cmp u v ≡ Ordering.eq → u ≡ v)
    → (cmp x y ≡ Ordering.lt → cmp y z ≡ Ordering.lt → cmp x z ≡ Ordering.lt)
    → (o ≡ Ordering.lt → p ≡ Ordering.lt → q ≡ Ordering.lt)
    → then_by (cmp x y) o ≡ Ordering.lt
    → then_by (cmp y z) p ≡ Ordering.lt
    → then_by (cmp x z) q ≡ Ordering.lt
then_by_trans x y z cmp o p q same step later e f = ground (arith, same x y, same y z)

pub text_trans :
    (s t u : Text)
    → compare_text s t ≡ Ordering.lt
    → compare_text t u ≡ Ordering.lt
    → compare_text s u ≡ Ordering.lt
unfolding compare_text
text_trans [] [] u e f = cc
text_trans [] (b ∷ t) [] e f = cc
text_trans [] (b ∷ t) (c ∷ u) e f = refl
text_trans (a ∷ s) [] u e f = cc
text_trans (a ∷ s) (b ∷ t) [] e f = cc
text_trans (a ∷ s) (b ∷ t) (c ∷ u) e f =
    then_by_trans a b c compare (compare_text s t) (compare_text t u) (compare_text s u) compare_eq
      (compare_trans a b c) (text_trans s t u) e f

mutual
  unfolding compare_key compare_keys

  pub key_eq : (j k : Key) → compare_key j k ≡ Ordering.eq → j ≡ k
  key_eq (number a) (number b) e = ap number (compare_eq a b e)
  key_eq (number a) (text t) e = cc
  key_eq (number a) (tuple ks) e = cc
  key_eq (text s) (number b) e = cc
  key_eq (text s) (text t) e = ap text (text_eq s t e)
  key_eq (text s) (tuple ks) e = cc
  key_eq (tuple js) (number b) e = cc
  key_eq (tuple js) (text t) e = cc
  key_eq (tuple js) (tuple ks) e = ap tuple (keys_eq js ks e)

  keys_eq : (js ks : Keys) → compare_keys js ks ≡ Ordering.eq → js ≡ ks
  keys_eq stop stop e = refl
  keys_eq stop (item k ks) e = cc
  keys_eq (item j js) stop e = cc
  keys_eq (item j js) (item k ks) e =
      let (p, q) = then_by_eq (compare_key j k) (compare_keys js ks) e in
      cc (key_eq j k p, keys_eq js ks q)

mutual
  unfolding compare_key compare_keys

  pub key_flip : (j k : Key) → compare_key k j ≡ flip (compare_key j k)
  key_flip (number a) (number b) = compare-flip a b
  key_flip (number a) (text t) = refl
  key_flip (number a) (tuple ks) = refl
  key_flip (text s) (number b) = refl
  key_flip (text s) (text t) = text_flip s t
  key_flip (text s) (tuple ks) = refl
  key_flip (tuple js) (number b) = refl
  key_flip (tuple js) (text t) = refl
  key_flip (tuple js) (tuple ks) = keys_flip js ks

  keys_flip : (js ks : Keys) → compare_keys ks js ≡ flip (compare_keys js ks)
  keys_flip stop stop = refl
  keys_flip stop (item k ks) = refl
  keys_flip (item j js) stop = refl
  keys_flip (item j js) (item k ks) =
      rw (key_flip j k, keys_flip js ks) (then_by-flip (compare_key j k) (compare_keys js ks))

mutual
  unfolding compare_key compare_keys

  pub key_trans :
      (i j k : Key)
      → compare_key i j ≡ Ordering.lt
      → compare_key j k ≡ Ordering.lt
      → compare_key i k ≡ Ordering.lt
  key_trans (number a) (number b) (number c) e f = compare_trans a b c e f
  key_trans (number a) j (text u) e f = refl
  key_trans (number a) j (tuple ks) e f = refl
  key_trans (number a) (text t) (number c) e f = cc
  key_trans (number a) (tuple js) (number c) e f = cc
  key_trans (text s) (number b) k e f = cc
  key_trans (text s) (text t) (text u) e f = text_trans s t u e f
  key_trans (text s) (text t) (number c) e f = cc
  key_trans (text s) (tuple js) (number c) e f = cc
  key_trans (text s) (tuple js) (text u) e f = cc
  key_trans (text s) (text t) (tuple ks) e f = refl
  key_trans (text s) (tuple js) (tuple ks) e f = refl
  key_trans (tuple is) (number b) k e f = cc
  key_trans (tuple is) (text t) k e f = cc
  key_trans (tuple is) (tuple js) (number c) e f = cc
  key_trans (tuple is) (tuple js) (text u) e f = cc
  key_trans (tuple is) (tuple js) (tuple ks) e f = keys_trans is js ks e f

  keys_trans :
      (is js ks : Keys)
      → compare_keys is js ≡ Ordering.lt
      → compare_keys js ks ≡ Ordering.lt
      → compare_keys is ks ≡ Ordering.lt
  keys_trans stop stop stop e f = cc
  keys_trans stop (item j js) stop e f = cc
  keys_trans stop js (item k ks) e f = refl
  keys_trans (item i is) stop ks e f = cc
  keys_trans (item i is) (item j js) stop e f = cc
  keys_trans (item i is) (item j js) (item k ks) e f =
      then_by_trans i j k compare_key (compare_keys is js) (compare_keys js ks) (compare_keys is ks)
        key_eq (key_trans i j k) (keys_trans is js ks) e f

abbrev pub not_greater : Ordering → Bool
not_greater Ordering.gt = false
not_greater _ = true

-- Python's `<=` on a type of which `compare` is the comparison.
module _ {A : Type 0} (cmp : A → A → Ordering) (same : (a b : A) → cmp a b ≡ Ordering.eq → a ≡ b)
    (flips : (a b : A) → cmp b a ≡ flip (cmp a b))
    (trans : (a b c : A)
      → cmp a b ≡ Ordering.lt
      → cmp b c ≡ Ordering.lt
      → cmp a c ≡ Ordering.lt) where
  pub order_total : (a b : A) → not_greater (cmp a b) ≡ false → not_greater (cmp b a) ≡ true
  order_total a b e = ground (arith, flips a b)

  pub order_antisym :
      (a b : A) → not_greater (cmp a b) ≡ true → not_greater (cmp b a) ≡ true → a ≡ b
  order_antisym a b e f = ground (arith, flips a b, same a b)

  pub order_trans :
      (a b c : A)
      → not_greater (cmp a b) ≡ true
      → not_greater (cmp b c) ≡ true
      → not_greater (cmp a c) ≡ true
  order_trans a b c e f = ground (arith, same a b, same b c, trans a b c)

  abbrev pub order_by : Order A
  order_by = record {
    le = λ a b. not_greater (cmp a b);
    total = order_total;
    antisym = order_antisym;
    trans = order_trans;
  }

unfoldable pub key_order : Order Key
unfolding compare_key compare_keys
key_order = order_by compare_key key_eq key_flip key_trans

unfoldable pub text_order : Order Text
unfolding compare_text
text_order = order_by compare_text text_eq text_flip text_trans

-- Python's `==` on keys.
unfoldable pub key_beq : Key → Key → Bool
unfolding compare_key compare_keys
key_beq j k = elim (compare_key j k) [ Ordering.eq ↦ true | _ ↦ false ]

pub key_beq_iff : (j k : Key) → (key_beq j k ≡ true) ↔ (j ≡ k)
unfolding key_beq
key_beq_iff j k = (λ h. ground (arith, key_eq j k), λ p. rw p (ground (arith, key_flip k k)))

instance abbrev pub Eq-key : Eq Key
Eq-key = record { beq = key_beq; beq_iff = key_beq_iff }
