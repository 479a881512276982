-- ===== src/IndexGraph/Reader/Varint.antt =====
-- `_Reader.var`: clangd's variable-length uint32, seven bits a byte and lowest group first.
use nvim_dot_files.Prelude.{
  ℕ, zero, suc, ◌+◌, ◌*◌, ◌/◌, ◌%◌, ◌^◌, ◌≤◌, ◌<◌, ◌≡◌, ◌≢◌, ap, [], ◌∷◌, ◌++◌, bit_and, bit_or,
  length, ltb, if◌then◌else◌, arith,
}
use nvim_dot_files.Prelude.Bits.{bit_or-shift, bit_and_low7, bit_and_bit7}
use nvim_dot_files.Prelude.Result.{ok}
use nvim_dot_files.IndexGraph.Reader.{Bytes, var_loop, var}
use native.Mathlib.Nat.{pow-suc, pow-le-pow_right}
use native.Mathlib.Decide.{ℕ_discrete}
use native.Mathlib.Numerals.{towards_suc}

-- What clangd's `writeVar` appends for `v`: a group of seven bits while more follow, at most
-- `more` of them, with the top bit set, and the last group plain.
unfoldable pub put_var : ℕ → ℕ → Bytes
put_var zero v = v ∷ []
put_var (suc more) v =
    let rest = put_var more (v / 128) in if ltb v 128 then v ∷ [] else (v % 128 + 128) ∷ rest

pow_seven : (s : ℕ) → 2 ^ (s + 7) ≡ 128 * 2 ^ s
pow_seven s = simp towards_suc (omega arith)

-- One round, on a last byte and on a byte that more follow.
round_last :
    (r s acc value : ℕ) (bs : Bytes)
    → value < 128
    → (s ≡ 28 → value < 16)
    → acc < 2 ^ s
    → var_loop (suc r) s acc (value ∷ bs) ≡ ok (acc + value * 2 ^ s, bs)
unfolding var_loop
round_last r s acc value bs small top fits =
    ground (arith, bit_and_low7 value, bit_and_bit7 value, bit_or-shift s acc value)

round_more :
    (r s acc group : ℕ) (bs : Bytes)
    → group < 128
    → s ≢ 28
    → acc < 2 ^ s
    → var_loop (suc r) s acc ((group + 128) ∷ bs) ≡ var_loop r (s + 7) (acc + group * 2 ^ s) bs
unfolding var_loop
round_more r s acc group bs small below fits =
    ground (arith, bit_and_low7 (group + 128), bit_and_bit7 (group + 128), bit_or-shift s acc group)

-- The lowest group and the rest of `w`, both shifted by `s`.
regroup : (w s : ℕ) → w % 128 * 2 ^ s + w / 128 * 2 ^ (s + 7) ≡ w * 2 ^ s
regroup w s =
    let split : w % 128 + 128 * (w / 128) ≡ w = omega arith in
    omega (arith, ap (λ (t : ℕ). t * 2 ^ s) split, ap (λ (t : ℕ). w / 128 * t) (pow_seven s))

group_fits : (s acc g : ℕ) → acc < 2 ^ s → g < 128 → acc + g * 2 ^ s < 2 ^ (s + 7)
group_fits s acc g h k = grind (arith, pow_seven s)

var_loop-put_var :
    (k w s acc : ℕ) (rest : Bytes)
    → s + 7 * k ≡ 28
    → w < 16 * 128 ^ k
    → acc < 2 ^ s
    → var_loop (suc k) s acc (put_var k w ++ rest) ≡ ok (acc + w * 2 ^ s, rest)
unfolding put_var
var_loop-put_var zero w s acc rest hs hw fits =
    round_last 0 s acc w rest (omega arith) (λ _. omega arith) fits
var_loop-put_var (suc k) w s acc rest hs hw fits = ground (
  arith,
  round_last (suc k) s acc w rest,
  round_more (suc k) s acc (w % 128) (put_var k (w / 128) ++ rest),
  regroup w s,
  group_fits s acc (w % 128),
  var_loop-put_var k (w / 128) (s + 7) (acc + w % 128 * 2 ^ s) rest,
  pow-suc 128 k,
)

-- The reader returns every uint32 that the writer wrote, and what follows it.
pub var-put_var : (v : ℕ) (rest : Bytes) → v < 2 ^ 32 → var (put_var 4 v ++ rest) ≡ ok (v, rest)
unfolding var
var-put_var v rest h =
    ground (arith, var_loop-put_var 4 v 0 0 rest (omega arith) (omega arith) (omega arith))

-- What a last round returns.
last_fits :
    (r s acc value : ℕ)
    → s + 7 * r ≡ 28
    → (s ≡ 28 → value < 16)
    → acc < 2 ^ s
    → bit_or acc (bit_and value 127 * 2 ^ s) < 2 ^ 32
last_fits r s acc value hs top fits = elim (ℕ_discrete s 28) [
  | yes e ↦ ground (
    arith,
    top e,
    bit_and_low7 value,
    bit_or-shift s acc (bit_and value 127),
    ap (λ (t : ℕ). 2 ^ t) e,
  )
  | no n ↦ ground (
    arith,
    bit_and_low7 value,
    bit_or-shift s acc (bit_and value 127),
    group_fits s acc (value % 128),
    pow-le-pow_right {n = 2} (omega arith) {i = s + 7} {j = 28} (omega arith),
  )
]

var_loop_bounds :
    (r s acc v : ℕ) (bs rest : Bytes)
    → s + 7 * r ≡ 35
    → acc < 2 ^ s
    → var_loop r s acc bs ≡ ok (v, rest)
    → (v < 2 ^ 32) × (length rest < length bs) × (length bs ≤ length rest + r)
unfolding var_loop
var_loop_bounds zero s acc v bs rest hs fits e = cc
var_loop_bounds (suc r) s acc v [] rest hs fits e = cc
var_loop_bounds (suc r) s acc v (value ∷ bs) rest hs fits e = ground (
  arith,
  last_fits r s acc value,
  bit_and_low7 value,
  bit_or-shift s acc (bit_and value 127),
  group_fits s acc (value % 128),
  var_loop_bounds r (s + 7) (bit_or acc (bit_and value 127 * 2 ^ s)) v bs rest,
)

-- A number that is read is a uint32, and takes 1 to 5 bytes.
pub var_bounds :
    (v : ℕ) (bs rest : Bytes)
    → var bs ≡ ok (v, rest)
    → (v < 2 ^ 32) × (length rest < length bs) × (length bs ≤ length rest + 5)
unfolding var
var_bounds v bs rest e = var_loop_bounds 5 0 0 v bs rest (omega arith) (omega arith) e

pub length-put_var : (k v : ℕ) → 0 < length (put_var k v)
unfolding put_var
length-put_var zero v = omega arith
length-put_var (suc k) v = ground arith
