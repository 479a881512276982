-- ===== src/IndexGraph/Utf8/Lossless.antt =====
-- Decoding loses no byte, valid UTF-8 or not: encoding gives the input back.
use nvim_dot_files.Prelude.{
  ℕ, zero, suc, ◌+◌, ◌-◌, ◌*◌, ◌/◌, ◌%◌, ◌≤◌, ◌<◌, ◌≡◌, refl, ap, ◌∙◌, ◌&&◌, [], ◌∷◌, ◌++◌, length,
  ltb, if◌then◌else◌, All, All-append_right, arith, true, Bool-cases, inl, inr,
}
use nvim_dot_files.IndexGraph.Reader.{Bytes, Text}
use nvim_dot_files.IndexGraph.Utf8.{
  between, is_continuation, second_of_four, escape, decode_one, two_bytes, three_bytes, four_bytes,
  decode_loop, decode,
}

abbrev pub IsByte : ℕ → Type 0
IsByte b = b < 256

-- `chr(point).encode("utf-8", "surrogateescape")`
unfoldable pub encode_one : ℕ → Bytes
encode_one p =
    if ltb p 128
    then p ∷ []
    else if ltb p 2048
    then (192 + p / 64) ∷ (128 + p % 64) ∷ []
    else if between 56448 56575 p
    then (p - 56320) ∷ []
    else if ltb p 65536
    then (224 + p / 4096) ∷ (128 + p / 64 % 64) ∷ (128 + p % 64) ∷ []
    else (240 + p / 262144) ∷ (128 + p / 4096 % 64) ∷ (128 + p / 64 % 64) ∷ (128 + p % 64) ∷ []

unfoldable pub encode : Text → Bytes
unfolding encode_one
encode [] = []
encode (p ∷ ps) = encode_one p ++ encode ps

cons_eq : {a b : ℕ} {xs ys : Bytes} → a ≡ b → xs ≡ ys → a ∷ xs ≡ b ∷ ys
cons_eq p q = cc

encode-escape : (a : ℕ) → 128 ≤ a → a < 256 → encode_one (56320 + a) ≡ a ∷ []
unfolding encode_one
encode-escape a lo hi = ground arith

abbrev Splits : ℕ → Bytes → ℕ × Bytes → Type 0
Splits a rest (p, rest') = (encode_one p ++ rest' ≡ a ∷ rest) × (length rest' ≤ length rest)

escape-Splits : (a : ℕ) (rest : Bytes) → 128 ≤ a → a < 256 → Splits a rest (escape a rest)
escape-Splits a rest lo hi = (ap (λ (t : Bytes). t ++ rest) (encode-escape a lo hi), omega arith)

two_bytes-Splits : (a : ℕ) (rest : Bytes) → 194 ≤ a → a ≤ 223 → Splits a rest (two_bytes a rest)
unfolding two_bytes encode_one
two_bytes-Splits a [] lo hi = ground arith
two_bytes-Splits a (b ∷ rest) lo hi = ground arith

three_bytes-Splits : (a : ℕ) (rest : Bytes) → 224 ≤ a → a ≤ 239 → Splits a rest (three_bytes a rest)
unfolding three_bytes encode_one
three_bytes-Splits a [] lo hi = ground arith
three_bytes-Splits a (b ∷ []) lo hi = ground arith
three_bytes-Splits a (b ∷ c ∷ rest) lo hi = ground arith

four_bytes_ranges :
    (a b c d : ℕ)
    → second_of_four a b ≡ true
    → (is_continuation c && is_continuation d) ≡ true
    → ((128 ≤ b) × (b ≤ 191)) × ((128 ≤ c) × (c ≤ 191)) × ((128 ≤ d) × (d ≤ 191))
four_bytes_ranges a b c d hb hcd = ground arith

four_bytes_astral :
    (a b c d p : ℕ)
    → 240 ≤ a
    → a ≤ 244
    → second_of_four a b ≡ true
    → p ≡ a % 8 * 262144 + b % 64 * 4096 + c % 64 * 64 + d % 64
    → 65536 ≤ p
four_bytes_astral a b c d p lo hi hb e = ground arith

encode_astral :
    (p : ℕ)
    → 65536 ≤ p
    → encode_one p
      ≡ (240 + p / 262144) ∷ (128 + p / 4096 % 64) ∷ (128 + p / 64 % 64) ∷ (128 + p % 64) ∷ []
unfolding encode_one
encode_astral p h = ground arith

astral_bytes :
    (p a b c d : ℕ)
    → 240 ≤ a
    → a ≤ 244
    → (128 ≤ b) × (b ≤ 191)
    → (128 ≤ c) × (c ≤ 191)
    → (128 ≤ d) × (d ≤ 191)
    → p / 262144 ≡ a % 8
    → p / 4096 % 64 ≡ b % 64
    → p / 64 % 64 ≡ c % 64
    → p % 64 ≡ d % 64
    → ◌≡◌ {A = Bytes}
        ((240 + p / 262144) ∷ (128 + p / 4096 % 64) ∷ (128 + p / 64 % 64) ∷ (128 + p % 64) ∷ [])
        (a ∷ b ∷ c ∷ d ∷ [])
astral_bytes p a b c d lo hi rb rc rd ha hb hc hd =
    cons_eq (omega arith)
      (cons_eq (omega arith) (cons_eq (omega arith) (cons_eq (omega arith) refl)))

-- The point of four bytes, taken apart again.
four_bytes_parts :
    (a b c d p : ℕ)
    → p ≡ a % 8 * 262144 + b % 64 * 4096 + c % 64 * 64 + d % 64
    → (p / 262144 ≡ a % 8) × (p / 4096 % 64 ≡ b % 64) × (p / 64 % 64 ≡ c % 64) × (p % 64 ≡ d % 64)
four_bytes_parts a b c d p e = (omega arith, omega arith, omega arith, omega arith)

encode-four_bytes :
    (a b c d p : ℕ)
    → 240 ≤ a
    → a ≤ 244
    → second_of_four a b ≡ true
    → (is_continuation c && is_continuation d) ≡ true
    → p ≡ a % 8 * 262144 + b % 64 * 4096 + c % 64 * 64 + d % 64
    → encode_one p ≡ a ∷ b ∷ c ∷ d ∷ []
encode-four_bytes a b c d p lo hi hb hcd e =
    let (ha, pb, pc, pd) = four_bytes_parts a b c d p e in
    let astral : 65536 ≤ p = four_bytes_astral a b c d p lo hi hb e in
    let (rb, rc, rd) = four_bytes_ranges a b c d hb hcd in
    encode_astral p astral ∙ astral_bytes p a b c d lo hi rb rc rd ha pb pc pd

four_bytes-Splits : (a : ℕ) (rest : Bytes) → 240 ≤ a → a ≤ 244 → Splits a rest (four_bytes a rest)
unfolding four_bytes
four_bytes-Splits a [] lo hi = escape-Splits a [] (omega arith) (omega arith)
four_bytes-Splits a (b ∷ []) lo hi = escape-Splits a (b ∷ []) (omega arith) (omega arith)
four_bytes-Splits a (b ∷ c ∷ []) lo hi = escape-Splits a (b ∷ c ∷ []) (omega arith) (omega arith)
four_bytes-Splits a (b ∷ c ∷ d ∷ rest) lo hi = ground (
  arith,
  encode-escape a,
  encode-four_bytes a b c d (a % 8 * 262144 + b % 64 * 4096 + c % 64 * 64 + d % 64),
)

encode-ascii : (a : ℕ) → ltb a 128 ≡ true → encode_one a ≡ a ∷ []
unfolding encode_one
encode-ascii a h = ground arith

decode_high :
    (a : ℕ) (rest : Bytes)
    → 128 ≤ a
    → a < 256
    → Splits a rest (
        if between 194 223 a
        then two_bytes a rest
        else if between 224 239 a
        then three_bytes a rest
        else if between 240 244 a
        then four_bytes a rest
        else escape a rest)
decode_high a rest lo hi = ground (
  arith,
  two_bytes-Splits a rest,
  three_bytes-Splits a rest,
  four_bytes-Splits a rest,
  escape-Splits a rest,
)

decode_one-Splits : (a : ℕ) (rest : Bytes) → a < 256 → Splits a rest (decode_one a rest)
unfolding decode_one
decode_one-Splits a rest h = elim (Bool-cases (ltb a 128)) [
  | inl ascii ↦ rw ascii (ap (λ (t : Bytes). t ++ rest) (encode-ascii a ascii), omega arith)
  | inr high ↦ rw high (decode_high a rest (ground arith) h)
]

encode-decode_loop :
    (fuel : ℕ) (raw : Bytes)
    → length raw ≤ fuel
    → All IsByte raw
    → encode (decode_loop fuel raw) ≡ raw
unfolding encode decode_loop
encode-decode_loop fuel [] h bytes = refl
encode-decode_loop zero (a ∷ rest) h bytes = absurd (omega arith)
encode-decode_loop (suc fuel) (a ∷ rest) h (byte, bytes) =
    let (whole, shorter) = decode_one-Splits a rest byte in
    let left : All IsByte (decode_one a rest).1 =
      All-append_right IsByte (encode_one (decode_one a rest).0) (decode_one a rest).1
        (rw whole (byte, bytes)) in
    rw (encode-decode_loop fuel (decode_one a rest).1 (omega arith) left) whole

-- Decoding with `surrogateescape` keeps every byte: the text encodes back to the input.
pub encode-decode : (raw : Bytes) → All IsByte raw → encode (decode raw) ≡ raw
unfolding decode
encode-decode raw bytes = encode-decode_loop (length raw) raw (omega arith) bytes
