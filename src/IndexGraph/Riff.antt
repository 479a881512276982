-- ===== src/IndexGraph/Riff.antt =====
-- `_chunks` of tools/clangd_index_graph.py: the RIFF container of a shard.
pub mod RoundTrip
pub mod Exact
use nvim_dot_files.Prelude.{
  ℕ, zero, suc, ◌+◌, ◌%◌, ◌≡◌, Bool, true, false, not, ◌&&◌, ◌||◌, List, [], ◌∷◌, ◌++◌, Option,
  none, some, bit_and, length, nat_eq, if◌then◌else◌, ◌==◌, Eq-number, Eq-list, Eq-option,
}
use nvim_dot_files.Prelude.Result.{Result, ok, err}
use nvim_dot_files.IndexGraph.Reader.{
  Bytes, Fault, Reader, pure, raise, ◌>>=◌, take_bytes, u32, remaining, while_remaining, not_riff,
  invalid_riff_size, duplicate_chunk, invalid_padding, unknown_chunk, missing_chunk,
  unsupported_version, out_of_fuel,
}

-- The dictionary `chunks`, its keys in the order of insertion.
abbrev pub Chunks : Type 0
Chunks = List (Bytes × Bytes)

-- `chunks.get(tag)`
unfoldable pub find : Bytes → Chunks → Option Bytes
find tag [] = none
find tag ((t, data') ∷ chunks) = if t == tag then some data' else find tag chunks

unfoldable pub has : Bytes → Chunks → Bool
has tag [] = false
has tag ((t, data') ∷ chunks) = t == tag || has tag chunks

abbrev pub riff_tag : Bytes
riff_tag = b'R' ∷ b'I' ∷ b'F' ∷ b'F' ∷ []

abbrev pub cdix_tag : Bytes
cdix_tag = b'C' ∷ b'd' ∷ b'I' ∷ b'x' ∷ []

abbrev pub meta_tag : Bytes
meta_tag = b'm' ∷ b'e' ∷ b't' ∷ b'a' ∷ []

abbrev pub stri_tag : Bytes
stri_tag = b's' ∷ b't' ∷ b'r' ∷ b'i' ∷ []

abbrev pub symb_tag : Bytes
symb_tag = b's' ∷ b'y' ∷ b'm' ∷ b'b' ∷ []

abbrev pub refs_tag : Bytes
refs_tag = b'r' ∷ b'e' ∷ b'f' ∷ b's' ∷ []

abbrev pub rela_tag : Bytes
rela_tag = b'r' ∷ b'e' ∷ b'l' ∷ b'a' ∷ []

abbrev pub srcs_tag : Bytes
srcs_tag = b's' ∷ b'r' ∷ b'c' ∷ b's' ∷ []

abbrev pub cmdl_tag : Bytes
cmdl_tag = b'c' ∷ b'm' ∷ b'd' ∷ b'l' ∷ []

abbrev pub required : List Bytes
required = meta_tag ∷ stri_tag ∷ symb_tag ∷ refs_tag ∷ rela_tag ∷ srcs_tag ∷ []

abbrev pub allowed : List Bytes
allowed = meta_tag ∷ stri_tag ∷ symb_tag ∷ refs_tag ∷ rela_tag ∷ srcs_tag ∷ cmdl_tag ∷ []

unfoldable pub member : Bytes → List Bytes → Bool
member tag [] = false
member tag (t ∷ tags) = t == tag || member tag tags

-- `chunks.keys() - allowed` is empty.
unfoldable pub keys_allowed : List Bytes → Chunks → Bool
unfolding member
keys_allowed tags [] = true
keys_allowed tags ((t, data') ∷ chunks) = member t tags && keys_allowed tags chunks

-- `required - chunks.keys()` is empty.
unfoldable pub has_all : List Bytes → Chunks → Bool
unfolding has
has_all [] chunks = true
has_all (t ∷ tags) chunks = has t chunks && has_all tags chunks

abbrev pub version : ℕ
version = 20

-- `struct.pack("<I", VERSION)`
abbrev pub packed_version : Bytes
packed_version = 20 ∷ 0 ∷ 0 ∷ 0 ∷ []

abbrev pub check : Bool → Fault → Reader (Unit {0})
check true fault = raise fault
check false fault = pure tt

-- `size & 1 and reader.take(1) != b"\0"`
unfoldable pub padding : ℕ → Reader (Unit {0})
unfolding take_bytes
padding size =
    if nat_eq (bit_and size 1) 0
    then pure tt
    else (do pad ← take_bytes 1; check (not (pad == 0 ∷ [])) invalid_padding)

-- One round of the loop.
unfoldable pub chunk_step : Chunks → Reader Chunks
unfolding take_bytes u32 has padding
chunk_step chunks = do
  tag ← take_bytes 4
  size ← u32
  _ ← check (has tag chunks) duplicate_chunk
  payload ← take_bytes size
  _ ← padding size
  pure (chunks ++ (tag, payload) ∷ [])

-- `size != reader.remaining() or reader.take(4) != b"CdIx"`
unfoldable pub read_form : ℕ → Reader (Unit {0})
unfolding take_bytes remaining
read_form size = do
  left ← remaining
  _ ← check (not (nat_eq size left)) invalid_riff_size
  form ← take_bytes 4
  check (not (form == cdix_tag)) invalid_riff_size

unfoldable pub read_header : Reader (Unit {0})
unfolding take_bytes u32 read_form
read_header = do
  magic ← take_bytes 4
  _ ← check (not (magic == riff_tag)) not_riff
  size ← u32
  read_form size

unfoldable pub check_chunks : Chunks → Result Fault Chunks
unfolding keys_allowed has_all find
check_chunks chunks =
    if not (keys_allowed allowed chunks)
    then err unknown_chunk
    else if not (has_all required chunks)
    then err missing_chunk
    else if find meta_tag chunks == some packed_version
    then ok chunks
    else err unsupported_version

unfoldable pub read_chunks : Bytes → Result Fault Chunks
unfolding read_header chunk_step while_remaining check_chunks
read_chunks raw = elim (read_header raw) [
  | err e ↦ err e
  | ok (_, body) ↦ elim (while_remaining chunk_step (length body) [] body) [
    | err e ↦ err e
    | ok (chunks, _) ↦ check_chunks chunks
  ]
]
