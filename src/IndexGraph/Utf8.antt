-- ===== src/IndexGraph/Utf8.antt =====
-- `value.decode("utf-8", "surrogateescape")`, as `_strings` of tools/clangd_index_graph.py uses it.
pub mod Lossless
use nvim_dot_files.Prelude.{
  ℕ, zero, suc, ◌+◌, ◌-◌, ◌*◌, ◌%◌, Bool, ◌&&◌, List, [], ◌∷◌, length, leb, ltb, nat_eq,
  if◌then◌else◌,
}
use nvim_dot_files.IndexGraph.Reader.{Bytes, Text}

abbrev pub between : ℕ → ℕ → ℕ → Bool
between lo hi b = leb lo b && leb b hi

abbrev pub is_continuation : ℕ → Bool
is_continuation b = between 128 191 b

-- A byte that begins no valid sequence becomes a lone low surrogate.
abbrev pub escape : ℕ → Bytes → ℕ × Bytes
escape a rest = (56320 + a, rest)

unfoldable pub two_bytes : ℕ → Bytes → ℕ × Bytes
two_bytes a (b ∷ rest) =
    if is_continuation b then (a % 32 * 64 + b % 64, rest) else escape a (b ∷ rest)
two_bytes a [] = escape a []

-- The second byte of a sequence, with the ranges that keep out overlong forms and surrogates.
abbrev pub second_of_three : ℕ → ℕ → Bool
second_of_three a b =
    if nat_eq a 224
    then between 160 191 b
    else if nat_eq a 237
    then between 128 159 b
    else is_continuation b

abbrev pub second_of_four : ℕ → ℕ → Bool
second_of_four a b =
    if nat_eq a 240
    then between 144 191 b
    else if nat_eq a 244
    then between 128 143 b
    else is_continuation b

unfoldable pub three_bytes : ℕ → Bytes → ℕ × Bytes
three_bytes a (b ∷ c ∷ rest) =
    if second_of_three a b && is_continuation c
    then (a % 16 * 4096 + b % 64 * 64 + c % 64, rest)
    else escape a (b ∷ c ∷ rest)
three_bytes a rest = escape a rest

unfoldable pub four_bytes : ℕ → Bytes → ℕ × Bytes
four_bytes a (b ∷ c ∷ d ∷ rest) =
    if second_of_four a b && (is_continuation c && is_continuation d)
    then (a % 8 * 262144 + b % 64 * 4096 + c % 64 * 64 + d % 64, rest)
    else escape a (b ∷ c ∷ d ∷ rest)
four_bytes a rest = escape a rest

-- The first code point, and the bytes that follow it.
unfoldable pub decode_one : ℕ → Bytes → ℕ × Bytes
unfolding two_bytes three_bytes four_bytes
decode_one a rest =
    if ltb a 128
    then (a, rest)
    else if between 194 223 a
    then two_bytes a rest
    else if between 224 239 a
    then three_bytes a rest
    else if between 240 244 a
    then four_bytes a rest
    else escape a rest

unfoldable pub decode_loop : ℕ → Bytes → Text
decode_loop fuel [] = []
decode_loop zero (a ∷ rest) = []
decode_loop (suc fuel) (a ∷ rest) =
    let (point, rest') = decode_one a rest in point ∷ decode_loop fuel rest'

-- Each round takes a byte at least.
unfoldable pub decode : Bytes → Text
unfolding decode_loop decode_one
decode raw = decode_loop (length raw) raw
