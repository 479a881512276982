-- ===== src/IndexGraph/Reader.antt =====
-- `_Reader` of tools/clangd_index_graph.py: a cursor over the bytes of one chunk.
pub mod Varint
pub mod Progress
pub mod Inverse
pub mod Reads
use nvim_dot_files.Prelude.{
  ℕ, zero, suc, ◌+◌, ◌*◌, ◌/◌, ◌%◌, ◌^◌, ◌≡◌, Bool, List, [], ◌∷◌, ◌++◌, Option, none, some, map,
  bit_and, bit_or, ◌-◌, ◌&&◌, length, take, drop, get_elem?, ltb, leb, nat_eq, if◌then◌else◌, ◌==◌,
}
use nvim_dot_files.Prelude.Result.{Result, ok, err}

-- A `bytes` object, and a `str` as its code points.
abbrev pub Bytes : Type 0
Bytes = List ℕ

abbrev pub Text : Type 0
Text = List ℕ

-- The messages of the `ValueError`s that the module raises. `out_of_fuel` is no Python value: it
-- says that a `while` loop of the model was given too few rounds.
pub data Fault : Type 0 where
  truncated_record overflowing_varint unterminated_varint truncated_sequence : Fault
  invalid_string_index not_riff invalid_riff_size duplicate_chunk invalid_padding : Fault
  unknown_chunk missing_chunk unsupported_version table_too_large invalid_compression : Fault
  table_size_mismatch unterminated_table duplicate_node trailing_command : Fault
  out_of_fuel : Fault

-- The cursor is `data[pos:]`, the bytes that are still to be read.
abbrev pub Reader : Type 0 → Type 0
Reader A = Bytes → Result Fault (A × Bytes)

abbrev pub pure : {A : Type 0} → A → Reader A
pure a bs = ok (a, bs)

abbrev pub raise : {A : Type 0} → Fault → Reader A
raise e bs = err e

infixl 5 ◌>>=◌
abbrev pub ◌>>=◌ : {A B : Type 0} → Reader A → (A → Reader B) → Reader B
◌>>=◌ m f bs = elim (m bs) [ ok (a, rest) ↦ f a rest | err e ↦ err e ]

unfoldable pub take_bytes : ℕ → Reader Bytes
take_bytes size bs =
    if ltb (length bs) size then err truncated_record else ok (take size bs, drop size bs)

unfoldable pub byte : Reader ℕ
byte [] = err truncated_record
byte (b ∷ bs) = ok (b, bs)

abbrev pub hex_digit : ℕ → ℕ
hex_digit n = if ltb n 10 then b'0' + n else b'a' + n - 10

-- `raw.hex()`
unfoldable pub hex : Bytes → Text
hex [] = []
hex (b ∷ bs) = hex_digit (b / 16) ∷ hex_digit (b % 16) ∷ hex bs

-- `self.ids` keeps the texts that were made, so that equal ones are one object; no value depends on it.
unfoldable pub symbol_id : Reader Text
unfolding take_bytes hex
symbol_id = do raw ← take_bytes 8; pure (hex raw)

-- `struct.unpack("<I", raw)[0]`
abbrev pub little_endian : Bytes → ℕ
little_endian [] = 0
little_endian (b ∷ bs) = b + 256 * little_endian bs

unfoldable pub u32 : Reader ℕ
unfolding take_bytes
u32 = do raw ← take_bytes 4; pure (little_endian raw)

-- The rounds that `range(0, 35, 7)` has left, its shift, and `result`.
unfoldable pub var_loop : ℕ → ℕ → ℕ → Reader ℕ
var_loop zero shift result bs = err unterminated_varint
var_loop (suc rounds) shift result [] = err truncated_record
var_loop (suc rounds) shift result (value ∷ bs) =
    let result' = bit_or result (bit_and value 127 * 2 ^ shift) in
    let more = var_loop rounds (shift + 7) result' bs in
    if nat_eq shift 28 && ltb 15 value
    then err overflowing_varint
    else if nat_eq (bit_and value 128) 0
    then ok (result', bs)
    else more

unfoldable pub var : Reader ℕ
unfolding var_loop
var = var_loop 5 0 0

unfoldable pub remaining : Reader ℕ
remaining bs = ok (length bs, bs)

unfoldable pub count : Reader ℕ
unfolding var remaining
count = do n ← var; left ← remaining; if ltb left n then raise truncated_sequence else pure n

abbrev at_index : Option Text → Reader Text
at_index none = raise invalid_string_index
at_index (some t) = pure t

unfoldable pub string : List Text → Reader Text
unfolding var
string strings = do index ← var; at_index (get_elem? strings index)

pub record Location : Type 0 where
  pub uri : Text
  pub start : ℕ × ℕ
  pub end : ℕ × ℕ

unfoldable pub location : List Text → Reader Location
unfolding string var
location strings = do
  uri ← string strings
  line ← var
  column ← var
  end_line ← var
  end_column ← var
  pure (record { uri = uri; start = (line, column); end = (end_line, end_column) })

-- `[item() for _ in range(n)]`
unfoldable pub repeat : {A : Type 0} → ℕ → Reader A → Reader (List A)
repeat zero item = pure []
repeat (suc n) item = do x ← item; xs ← repeat n item; pure (x ∷ xs)

-- `while reader.remaining(): state = body(state)`, with the rounds that it may take.
unfoldable pub while_remaining : {S : Type 0} → (S → Reader S) → ℕ → S → Reader S
while_remaining body fuel s [] = ok (s, [])
while_remaining body zero s (b ∷ bs) = err out_of_fuel
while_remaining body (suc fuel) s (b ∷ bs) = elim (body s (b ∷ bs)) [
  | ok (s', rest) ↦ while_remaining body fuel s' rest
  | err e ↦ err e
]
