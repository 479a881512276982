-- ===== src/ShardOwners.antt =====
-- tools/clangd_shard_owners.py: the owner of a shard, read from its metadata alone.
pub mod Scanning
pub mod Loop
pub mod Sources
pub mod Agrees
mod Tests
use nvim_dot_files.Prelude.{
  ℕ, zero, suc, ◌+◌, ◌*◌, ◌-◌, ◌%◌, ◌≡◌, Bool, true, false, not, ◌&&◌, ◌||◌, List, [], ◌∷◌, ◌++◌,
  Option, none, some, bit_and, length, take, drop, ltb, nat_eq, if◌then◌else◌, ◌==◌, Eq-number,
  Eq-list, Eq-option,
}
use nvim_dot_files.Prelude.Result.{Result, ok, err}
use nvim_dot_files.IndexGraph.Reader.{
  Bytes, Text, Fault, Reader, pure, ◌>>=◌, little_endian, take_bytes, byte, string, count, repeat,
  while_remaining, raise, duplicate_node, u32,
}
use nvim_dot_files.IndexGraph.Riff.{
  Chunks, find, member, allowed, required, riff_tag, cdix_tag, meta_tag, stri_tag, srcs_tag,
  packed_version, check,
}
use nvim_dot_files.IndexGraph.Strings.{Zlib, read_strings}

-- The messages of the errors; `index` carries one that tools/clangd_index_graph.py raised. `stuck` is
-- no Python value: the loop was given too few rounds.
pub data OwnerFault : Type 0 where
  relative_path truncated_file invalid_size_or_type truncated_header unknown_chunk duplicate_chunk :
      OwnerFault
  truncated_chunk metadata_too_large invalid_padding changed_while_reading missing_chunk :
      OwnerFault
  unsupported_version expected_one_own stuck : OwnerFault
  index : Fault → OwnerFault

-- `st_size`, `st_mtime_ns`, `st_ino` of `os.fstat`
pub record Stat : Type 0 where
  pub size : ℕ
  pub mtime : ℕ
  pub inode : ℕ

-- The open file: the position, the bytes from there on, and how many have been read.
pub record Stream : Type 0 where
  pub tell : ℕ
  pub rest : Bytes
  pub bytes_read : ℕ

-- A method of the stream, which may raise; what was read before stays counted.
abbrev pub Action : Type 0 → Type 0
Action A = Stream → Result OwnerFault A × Stream

abbrev pub return : {A : Type 0} → A → Action A
return a s = (ok a, s)

abbrev pub fail : {A : Type 0} → OwnerFault → Action A
fail e s = (err e, s)

abbrev pub continue : {A B : Type 0} → Result OwnerFault A → (A → Action B) → Action B
continue (ok a) f s = f a s
continue (err e) f s = (err e, s)

abbrev pub and_then : {A B : Type 0} → Action A → (A → Action B) → Action B
and_then m f s = let (r, s') = m s in continue r f s'

unfoldable pub take_stream : ℕ → Action Bytes
take_stream size s =
    let raw = take size s.rest in
    let s' : Stream = record {
      tell = s.tell + length raw;
      rest = drop size s.rest;
      bytes_read = s.bytes_read + length raw;
    } in
    if nat_eq (length raw) size then (ok raw, s') else (err truncated_file, s')

-- `stream.seek(size, os.SEEK_CUR)`
unfoldable pub seek : ℕ → Action (Unit {0})
seek size s = (ok tt, record s { tell = s.tell + size; rest = drop size s.rest })

abbrev pub metadata : List Bytes
metadata = meta_tag ∷ stri_tag ∷ srcs_tag ∷ []

-- `_MAX_METADATA_CHUNK`
abbrev pub max_metadata_chunk : ℕ
max_metadata_chunk = 256 * 1024 * 1024

-- `chunks` and `seen`
pub record Scan : Type 0 where
  pub chunks : Chunks
  pub seen : List Bytes

unfoldable pub pad_stream : ℕ → Action (Unit {0})
unfolding take_stream
pad_stream size =
    if nat_eq (bit_and size 1) 0
    then return tt
    else and_then (take_stream 1) λ pad. if pad == 0 ∷ [] then return tt else fail invalid_padding

-- The payload of one chunk: read, if it is metadata, and skipped if not.
unfoldable pub payload_step : Bytes → ℕ → Scan → Action Scan
unfolding take_stream seek pad_stream
payload_step tag size scan =
    let seen = tag ∷ scan.seen in
    if member tag metadata
    then (if ltb max_metadata_chunk size
        then fail metadata_too_large
        else and_then (take_stream size) λ raw.
          and_then (pad_stream size)
            λ _. return (record { chunks = scan.chunks ++ (tag, raw) ∷ []; seen = seen }))
    else and_then (seek size)
        λ _. and_then (pad_stream size) λ _. return (record scan { seen = seen })

-- A round of the loop behind the head of the chunk, in a file of `total` bytes.
unfoldable pub head_step : ℕ → Scan → Bytes → Action Scan
unfolding member payload_step
head_step total scan head s =
    let tag = take 4 head in
    let size = little_endian (drop 4 head) in
    if not (member tag allowed)
    then (err unknown_chunk, s)
    else if member tag scan.seen
    then (err duplicate_chunk, s)
    else if ltb (total - s.tell) (size + bit_and size 1)
    then (err truncated_chunk, s)
    else payload_step tag size scan s

-- One round of the loop.
unfoldable pub scan_step : ℕ → Scan → Action Scan
unfolding take_stream head_step
scan_step total scan s =
    if ltb (total - s.tell) 8
    then (err truncated_header, s)
    else and_then (take_stream 8) (head_step total scan) s

-- `while stream.tell() < before.st_size`, with the rounds that it may take.
unfoldable pub scan_loop : ℕ → ℕ → Scan → Action Scan
unfolding scan_step
scan_loop zero total scan s = if ltb s.tell total then (err stuck, s) else (ok scan, s)
scan_loop (suc fuel) total scan s =
    let more = and_then (scan_step total scan) (scan_loop fuel total) s in
    if ltb s.tell total then more else (ok scan, s)

-- The source nodes: the URIs, and those of nodes with a digest that is not zero.
pub record Owners : Type 0 where
  pub uris : List Text
  pub own : List Text

abbrev zero_bytes : Bytes
zero_bytes = 0 ∷ 0 ∷ 0 ∷ 0 ∷ 0 ∷ 0 ∷ 0 ∷ 0 ∷ []

unfoldable pub seen_uri : Text → List Text → Bool
seen_uri uri [] = false
seen_uri uri (u ∷ uris) = u == uri || seen_uri uri uris

-- One node. Its error for an empty or repeated URI is reported as that of a repeated node.
unfoldable pub owner_step : List Text → Owners → Reader Owners
unfolding byte string take_bytes seen_uri count repeat
owner_step strings o = do
  _ ← byte
  uri ← string strings
  digest ← take_bytes 8
  _ ← check (uri == [] || seen_uri uri o.uris) duplicate_node
  n ← count
  _ ← repeat n (string strings)
  pure (record {
    uris = uri ∷ o.uris;
    own = if digest == zero_bytes then o.own else o.own ++ uri ∷ [];
  })

-- `len(own) != 1`
abbrev single : List Text → Result OwnerFault Text
single [] = err expected_one_own
single (uri ∷ []) = ok uri
single (uri ∷ v ∷ own) = err expected_one_own

unfoldable pub has_seen : List Bytes → List Bytes → Bool
unfolding member
has_seen [] seen = true
has_seen (t ∷ tags) seen = member t seen && has_seen tags seen

unfoldable pub owner_of_nodes : List Text → Bytes → Result OwnerFault Text
unfolding owner_step while_remaining
owner_of_nodes strings srcs =
    elim (while_remaining (owner_step strings) (length srcs) (record { uris = []; own = [] })
      srcs) [ err e ↦ err (index e) | ok (o, _) ↦ single o.own ]

abbrev chunk_or_empty : Option Bytes → Bytes
chunk_or_empty none = []
chunk_or_empty (some raw) = raw

-- What follows the loop, once the file is known not to have changed.
unfoldable pub owner_of_chunks : Zlib → Scan → Result OwnerFault Text
unfolding has_seen find read_strings owner_of_nodes
owner_of_chunks z scan =
    if not (has_seen required scan.seen)
    then err missing_chunk
    else if not (find meta_tag scan.chunks == some packed_version)
    then err unsupported_version
    else elim (read_strings z (chunk_or_empty (find stri_tag scan.chunks))) [
      | err e ↦ err (index e)
      | ok strings ↦ owner_of_nodes strings (chunk_or_empty (find srcs_tag scan.chunks))
    ]

-- The test of the header, in a file of `total` bytes.
unfoldable pub header_step : ℕ → Bytes → Action (Unit {0})
header_step total header =
    if take 4 header == riff_tag
      && (drop 8 header == cdix_tag && nat_eq (little_endian (take 4 (drop 4 header)) + 8) total)
    then return tt
    else fail invalid_size_or_type

unfoldable pub read_header : ℕ → Action (Unit {0})
unfolding take_stream header_step
read_header total = and_then (take_stream 12) (header_step total)

abbrev pub same_stat : Stat → Stat → Bool
same_stat a b = nat_eq a.size b.size && (nat_eq a.mtime b.mtime && nat_eq a.inode b.inode)

abbrev pub empty_scan : Scan
empty_scan = record { chunks = []; seen = [] }

-- The header and the loop, in a file of `total` bytes.
unfoldable pub scan_file : ℕ → Action Scan
unfolding read_header scan_loop
scan_file total = and_then (read_header total) (λ _. scan_loop total total empty_scan)

unfoldable pub finish :
    Zlib → Stat → Stat → Result OwnerFault Scan × Stream → Result OwnerFault Text × Stream
unfolding owner_of_chunks
finish z before after (err e, s) = (err e, s)
finish z before after (ok scan, s) =
    if same_stat before after then (owner_of_chunks z scan, s) else (err changed_while_reading, s)

-- `read_owner`, of a file that yields `content`, with its states before and after the loop.
unfoldable pub read_owner : Zlib → Bool → Stat → Stat → Bytes → Result OwnerFault Text × Stream
unfolding scan_file finish
read_owner z absolute before after content =
    let start : Stream = record { tell = 0; rest = content; bytes_read = 0 } in
    if absolute
    then finish z before after (scan_file before.size start)
    else (err relative_path, start)
