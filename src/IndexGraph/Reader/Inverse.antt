-- ===== src/IndexGraph/Reader/Inverse.antt =====
-- What a successful read says of the bytes, and the reads of bytes that are laid out for them.
use nvim_dot_files.Prelude.{
  ℕ, zero, suc, ◌/◌, ◌%◌, ◌^◌, ◌<◌, ◌≡◌, refl, sym, ap, ◌∙◌, [], ◌∷◌, ◌++◌, length, take, drop,
  length-append, take-append, drop-append, length-take_le, ltb, le→ltb, Bool-cases, inl, inr, All,
  All-append_left, arith,
}
use nvim_dot_files.Prelude.Result.{Result, ok, err}
use nvim_dot_files.IndexGraph.Reader.{
  Bytes, Fault, Reader, pure, ◌>>=◌, take_bytes, u32, little_endian, while_remaining,
}
use nvim_dot_files.IndexGraph.Utf8.Lossless.{IsByte}

module _ {A B : Type 0} where
  pub bind_ok :
      (m : Reader A) (f : A → Reader B) (bs : Bytes) {a : A} {rest : Bytes}
      → m bs ≡ ok (a, rest)
      → (m >>= f) bs ≡ f a rest
  bind_ok m f bs e = rw (e, ◌>>=◌)

  result_inv :
      (r : Result Fault (A × Bytes)) (f : A → Reader B) {b : B} {rest : Bytes}
      → (elim r [ ok (a, left) ↦ f a left | err e ↦ err e ]) ≡ ok (b, rest)
      → (a : A) × (left : Bytes) × (r ≡ ok (a, left)) × (f a left ≡ ok (b, rest))
  result_inv (ok (a, left)) f e = (a, left, refl, e)
  result_inv (err x) f e = cc

  pub bind_inv :
      (m : Reader A) (f : A → Reader B) (bs : Bytes) {b : B} {rest : Bytes}
      → (m >>= f) bs ≡ ok (b, rest)
      → (a : A) × (left : Bytes) × (m bs ≡ ok (a, left)) × (f a left ≡ ok (b, rest))
  bind_inv m f bs e = result_inv (m bs) f e

module _ {A B : Type 0} {P : Type 0} where
  -- The same, handed on: the parts are variables to what follows.
  pub bind_elim :
      (m : Reader A) (f : A → Reader B) (bs : Bytes) {b : B} {rest : Bytes}
      → (m >>= f) bs ≡ ok (b, rest)
      → ((a : A) (left : Bytes) → m bs ≡ ok (a, left) → f a left ≡ ok (b, rest) → P)
      → P
  bind_elim m f bs e k = let (a, left, p, q) = bind_inv m f bs e in k a left p q

pub take-append-drop : (n : ℕ) (xs : Bytes) → take n xs ++ drop n xs ≡ xs
take-append-drop zero xs = refl
take-append-drop (suc n) [] = refl
take-append-drop (suc n) (x ∷ xs) = rw (take-append-drop n xs)

pub take_bytes-append :
    (n : ℕ) (xs ys : Bytes) → length xs ≡ n → take_bytes n (xs ++ ys) ≡ ok (xs, ys)
unfolding take_bytes
take_bytes-append n xs ys e = rw (← e) (
    rw (le→ltb (length (xs ++ ys)) (length xs) (omega (arith, length-append xs ys)))
      (rw (take-append xs ys) (rw (drop-append xs ys))))

pub take_bytes_inv :
    (n : ℕ) (bs xs rest : Bytes)
    → take_bytes n bs ≡ ok (xs, rest)
    → (bs ≡ xs ++ rest) × (length xs ≡ n)
unfolding take_bytes
take_bytes_inv n bs xs rest e = elim (Bool-cases (ltb (length bs) n)) [
  | inl short ↦ cc (rw short at e)
  | inr long ↦
      let got : ◌≡◌ {A = Result Fault (Bytes × Bytes)} (ok (take n bs, drop n bs)) (ok (xs, rest)) =
        rw long at e in
      let front : take n bs ≡ xs = cc got in
      let back : drop n bs ≡ rest = cc got in
      (
        rw (← front, ← back) (sym (take-append-drop n bs)),
        rw (← front) (length-take_le n bs (ground arith)),
      )
]

-- `struct.pack("<I", n)`
unfoldable pub pack32 : ℕ → Bytes
pack32 n = n % 256 ∷ n / 256 % 256 ∷ n / 65536 % 256 ∷ n / 16777216 % 256 ∷ []

pub length-pack32 : (n : ℕ) → length (pack32 n) ≡ 4
unfolding pack32
length-pack32 n = refl

pub little_endian-pack32 : (n : ℕ) → n < 2 ^ 32 → little_endian (pack32 n) ≡ n
unfolding pack32
little_endian-pack32 n h = omega arith

pub u32-pack32 : (n : ℕ) (rest : Bytes) → n < 2 ^ 32 → u32 (pack32 n ++ rest) ≡ ok (n, rest)
unfolding u32
u32-pack32 n rest h =
    bind_ok (take_bytes 4) _ (pack32 n ++ rest)
      (take_bytes-append 4 (pack32 n) rest (length-pack32 n))
    ∙ ap (λ (t : ℕ). ok (t, rest)) (little_endian-pack32 n h)

pack32-little_endian :
    (raw : Bytes)
    → length raw ≡ 4
    → All IsByte raw
    → (pack32 (little_endian raw) ≡ raw) × (little_endian raw < 2 ^ 32)
unfolding pack32
pack32-little_endian [] e h = absurd (omega arith)
pack32-little_endian (a ∷ []) e h = absurd (omega arith)
pack32-little_endian (a ∷ b ∷ []) e h = absurd (omega arith)
pack32-little_endian (a ∷ b ∷ c ∷ []) e h = absurd (omega arith)
pack32-little_endian (a ∷ b ∷ c ∷ d ∷ []) e h = ground arith
pack32-little_endian (a ∷ b ∷ c ∷ d ∷ x ∷ xs) e h = absurd (omega arith)

pub u32_inv :
    (bs rest : Bytes) {n : ℕ}
    → All IsByte bs
    → u32 bs ≡ ok (n, rest)
    → (bs ≡ pack32 n ++ rest) × (n < 2 ^ 32)
unfolding u32
u32_inv bs rest {n} bytes e =
    let (raw, left, got, last) = bind_inv (take_bytes 4) (λ raw. pure (little_endian raw)) bs e in
    let (whole, four) = take_bytes_inv 4 bs raw left got in
    let (packed, small) =
      pack32-little_endian raw four (All-append_left IsByte raw left (rw whole at bytes)) in
    let value : little_endian raw ≡ n = cc last in
    let ending : left ≡ rest = cc last in (cc (whole, packed, value, ending), rw (← value) small)

-- One round of a loop.
pub loop_step :
    {S : Type 0} (body : S → Reader S) (fuel : ℕ) (s s' : S) (bs rest : Bytes)
    → 0 < length bs
    → body s bs ≡ ok (s', rest)
    → while_remaining body (suc fuel) s bs ≡ while_remaining body fuel s' rest
unfolding while_remaining
loop_step body fuel s s' [] rest h e = absurd (omega arith)
loop_step body fuel s s' (b ∷ bs) rest h e = rw (e, while_remaining)
