-- ===== src/Argv/Windows/Runs.antt =====
-- The loop of `_split_windows_argument`, on a run of characters of one kind and on a spelled argument.
use nvim_dot_files.Prelude.{
  ℕ, zero, suc, ◌+◌, ◌/◌, ◌%◌, ◌≡◌, refl, sym, ap, ◌∙◌, Bool, true, false, [], ◌∷◌, ◌++◌,
  append-nil, append_assoc, nat_eq, Eq-number, inl, inr, ◌⊎◌, arith,
}
use nvim_dot_files.Prelude.Texts.{Text}
use nvim_dot_files.Argv.Windows.{
  Char, blank, quote, backslash, other, char_of, slashes, starts_quote, Argument, slash, literal,
  argument_loop,
}

abbrev pub argument : Text → Bool → ℕ → Argument
argument v q n = record { value = v; in_quotes = q; backslashes = n }

pub loop-slash :
    (a : Argument) (c : ℕ) (s : Text)
    → char_of c ≡ backslash
    → argument_loop false a (c ∷ s) ≡ argument_loop false (slash a) s
unfolding argument_loop
loop-slash a c s e = rw (e, argument_loop) refl

pub loop-other :
    (a : Argument) (c : ℕ) (s : Text)
    → char_of c ≡ other
    → argument_loop false a (c ∷ s) ≡ argument_loop false (literal c a) s
unfolding argument_loop
loop-other a c s e = rw (e, argument_loop) refl

loop-slashes :
    (v : Text) (q : Bool) (n k : ℕ) (s : Text)
    → argument_loop false (argument v q n) (slashes k ++ s)
      ≡ argument_loop false (argument v q (n + k)) s
loop-slashes v q n zero s = ap (λ (m : ℕ). argument_loop false (argument v q m) s) (omega arith)
loop-slashes v q n (suc k) s =
    loop-slash (argument v q n) 92 (slashes k ++ s) refl
    ∙ loop-slashes v q (suc n) k s
    ∙ ap (λ (m : ℕ). argument_loop false (argument v q m) s) (omega arith)

-- The body of a quoted argument, behind `n` backslashes: those before a quotation mark are doubled,
-- and the mark is escaped.
unfoldable pub put_body : ℕ → Text → Text
put_body n [] = slashes (n + n)
put_body n (c ∷ t) = elim (char_of c) [
  | quote ↦ slashes (n + n) ++ 92 ∷ b'"' ∷ put_body 0 t
  | backslash ↦ put_body (suc n) t
  | blank ↦ slashes n ++ c ∷ put_body 0 t
  | other ↦ slashes n ++ c ∷ put_body 0 t
]

loop-close :
    (v rest : Text) (n : ℕ)
    → starts_quote rest ≡ false
    → argument_loop false (argument v true (n + n)) (b'"' ∷ rest)
      ≡ argument_loop false (argument (v ++ slashes n) false 0) rest
unfolding argument_loop
loop-close v rest n e =
    let even : nat_eq ((n + n) % 2) 0 ≡ true = ground arith in
    let half : (n + n) / 2 ≡ n = omega arith in
    rw (even, argument_loop)
      (rw e (
        rw half (
          ap (λ (t : Text). argument_loop false (argument t false 0) rest)
            (append-nil (v ++ slashes n)))))

loop-escaped :
    (v s : Text) (n : ℕ)
    → argument_loop false (argument v true (n + n)) (92 ∷ b'"' ∷ s)
      ≡ argument_loop false (argument (v ++ slashes n ++ b'"' ∷ []) true 0) s
unfolding argument_loop
loop-escaped v s n =
    let odd : nat_eq (suc (n + n) % 2) 0 ≡ false = ground arith in
    let half : suc (n + n) / 2 ≡ n = omega arith in rw (odd, argument_loop) (rw half refl)

loop-within :
    (v s : Text) (n c : ℕ)
    → (char_of c ≡ blank) ⊎ (char_of c ≡ other)
    → argument_loop false (argument v true n) (c ∷ s)
      ≡ argument_loop false (argument (v ++ slashes n ++ c ∷ []) true 0) s
unfolding argument_loop
loop-within v s n c (inl e) = rw (e, argument_loop) refl
loop-within v s n c (inr e) = rw (e, argument_loop) refl

quote_code : (c : ℕ) → char_of c ≡ quote → c ≡ b'"'
quote_code c e = ground arith

backslash_code : (c : ℕ) → char_of c ≡ backslash → c ≡ 92
backslash_code c e = ground arith

slashes_snoc : (n : ℕ) (t : Text) → slashes n ++ 92 ∷ t ≡ slashes (suc n) ++ t
slashes_snoc zero t = refl
slashes_snoc (suc n) t = ap (λ (u : Text). 92 ∷ u) (slashes_snoc n t)

loop-run :
    (v : Text) (q : Bool) (k : ℕ) (s : Text)
    → argument_loop false (argument v q 0) (slashes k ++ s) ≡ argument_loop false (argument v q k) s
loop-run v q k s =
    loop-slashes v q 0 k s ∙ ap (λ (m : ℕ). argument_loop false (argument v q m) s) (omega arith)

pub Char-cases : (k : Char) → ((k ≡ blank) ⊎ (k ≡ other)) ⊎ ((k ≡ quote) ⊎ (k ≡ backslash))
Char-cases blank = inl (inl refl)
Char-cases other = inl (inr refl)
Char-cases quote = inr (inl refl)
Char-cases backslash = inr (inr refl)

pub put_body_within :
    (n c : ℕ) (t : Text)
    → (char_of c ≡ blank) ⊎ (char_of c ≡ other)
    → put_body n (c ∷ t) ≡ slashes n ++ c ∷ put_body 0 t
unfolding put_body
put_body_within n c t (inl e) = rw (e, put_body) refl
put_body_within n c t (inr e) = rw (e, put_body) refl

pub put_body_quote :
    (n c : ℕ) (t : Text)
    → char_of c ≡ quote
    → put_body n (c ∷ t) ≡ slashes (n + n) ++ 92 ∷ b'"' ∷ put_body 0 t
unfolding put_body
put_body_quote n c t e = rw (e, put_body) refl

pub put_body_slash :
    (n c : ℕ) (t : Text) → char_of c ≡ backslash → put_body n (c ∷ t) ≡ put_body (suc n) t
unfolding put_body
put_body_slash n c t e = rw (e, put_body) refl

-- A quoted body is read as its text, and the quotation ends.
pub loop-put_body :
    (n : ℕ) (t v rest : Text)
    → starts_quote rest ≡ false
    → argument_loop false (argument v true 0) (put_body n t ++ b'"' ∷ rest)
      ≡ argument_loop false (argument (v ++ (slashes n ++ t)) false 0) rest
loop-put_body n [] v rest e =
    unfold put_body in
    loop-run v true (n + n) (b'"' ∷ rest)
    ∙ loop-close v rest n e
    ∙ ap (λ (u : Text). argument_loop false (argument (v ++ u) false 0) rest)
        (sym (append-nil (slashes n)))
loop-put_body n (c ∷ t) v rest e = elim (Char-cases (char_of c)) [
  | inl h ↦
      ap (λ (u : Text). argument_loop false (argument v true 0) (u ++ b'"' ∷ rest))
        (put_body_within n c t h)
      ∙ ap (λ (u : Text). argument_loop false (argument v true 0) u)
          (append_assoc (slashes n) (c ∷ put_body 0 t) (b'"' ∷ rest))
      ∙ loop-run v true n (c ∷ (put_body 0 t ++ b'"' ∷ rest))
      ∙ loop-within v (put_body 0 t ++ b'"' ∷ rest) n c h
      ∙ loop-put_body 0 t (v ++ slashes n ++ c ∷ []) rest e
      ∙ ap (λ (u : Text). argument_loop false (argument u false 0) rest)
          (append_assoc (v ++ slashes n) (c ∷ []) t ∙ append_assoc v (slashes n) (c ∷ t))
  | inr (inl q) ↦
      ap (λ (u : Text). argument_loop false (argument v true 0) (u ++ b'"' ∷ rest))
        (put_body_quote n c t q)
      ∙ ap (λ (u : Text). argument_loop false (argument v true 0) u)
          (append_assoc (slashes (n + n)) (92 ∷ b'"' ∷ put_body 0 t) (b'"' ∷ rest))
      ∙ loop-run v true (n + n) (92 ∷ b'"' ∷ (put_body 0 t ++ b'"' ∷ rest))
      ∙ loop-escaped v (put_body 0 t ++ b'"' ∷ rest) n
      ∙ loop-put_body 0 t (v ++ slashes n ++ b'"' ∷ []) rest e
      ∙ ap (λ (u : Text). argument_loop false (argument u false 0) rest)
          (append_assoc (v ++ slashes n) (b'"' ∷ []) t
            ∙ append_assoc v (slashes n) (b'"' ∷ t)
            ∙ ap (λ (d : ℕ). v ++ (slashes n ++ d ∷ t)) (sym (quote_code c q)))
  | inr (inr b) ↦
      ap (λ (u : Text). argument_loop false (argument v true 0) (u ++ b'"' ∷ rest))
        (put_body_slash n c t b)
      ∙ loop-put_body (suc n) t v rest e
      ∙ ap (λ (u : Text). argument_loop false (argument (v ++ u) false 0) rest)
          (sym (slashes_snoc n t) ∙ ap (λ (d : ℕ). slashes n ++ d ∷ t) (sym (backslash_code c b)))
]
