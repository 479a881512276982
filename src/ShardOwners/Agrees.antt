-- ===== src/ShardOwners/Agrees.antt =====
-- `read_owner` beside `decode_shard` and the graph: what it finds in the metadata alone.
use nvim_dot_files.Prelude.{
  ℕ, ◌+◌, ◌*◌, ◌/◌, ◌%◌, ◌^◌, ◌<◌, ◌≡◌, ◌≢◌, refl, sym, ap, subst, ◌∙◌, true, List, [], ◌∷◌, ◌++◌,
  some, length, length-append, Eq-number, Eq-list, Eq-option, All, arith,
}
use nvim_dot_files.Prelude.Result.{Result, ok, >>=-elim-ok}
use nvim_dot_files.IndexGraph.Reader.{Bytes, Text, while_remaining}
use nvim_dot_files.IndexGraph.Reader.Inverse.{pack32, length-pack32}
use nvim_dot_files.IndexGraph.Riff.{
  Chunks, find, has, member, required, read_chunks, has_all, riff_tag, cdix_tag, stri_tag, srcs_tag,
  meta_tag, packed_version,
}
use nvim_dot_files.IndexGraph.Riff.RoundTrip.{put_chunks, write_riff, IsContainer, nat_eq_self}
use nvim_dot_files.IndexGraph.Riff.Exact.{read_chunks_exact}
use nvim_dot_files.IndexGraph.Utf8.Lossless.{IsByte}
use nvim_dot_files.IndexGraph.Strings.{Zlib}
use nvim_dot_files.IndexGraph.Shard.{Shard, Sources, SourceNode, sources_step}
use nvim_dot_files.IndexGraph.Decode.{decode_chunks, decode_shard}
use nvim_dot_files.IndexGraph.Canonical.{own_nodes}
use nvim_dot_files.IndexGraph.Shard.{has_uri}
use nvim_dot_files.ShardOwners.{seen_uri}
use nvim_dot_files.ShardOwners.{
  OwnerFault, Stat, Stream, Scan, and_then, take_stream, header_step, read_header, scan_loop,
  has_seen, owner_of_nodes, owner_of_chunks, empty_scan, scan_file, finish, read_owner, same_stat,
}
use nvim_dot_files.ShardOwners.Scanning.{at_, IsSmall, and_then_ok, take_stream-append}
use nvim_dot_files.ShardOwners.Loop.{Keeps, Scanned, reads, scan_loop-put_chunks}
use nvim_dot_files.ShardOwners.Sources.{owners_loop, uris_of}
use nvim_dot_files.IndexGraph.Decode.Inverse.{decode_chunks_inv}

header_step-lem :
    (n total : ℕ) (s : Stream)
    → n < 2 ^ 32
    → n + 8 ≡ total
    → header_step total (riff_tag ++ (pack32 n ++ cdix_tag)) s ≡ (ok tt, s)
unfolding header_step pack32
header_step-lem n total s small whole =
    let size : n % 256
          + 256 * (n / 256 % 256 + 256 * (n / 65536 % 256 + 256 * (n / 16777216 % 256 + 256 * 0)))
        ≡ n =
      omega arith in
    rw (size, whole) (rw (nat_eq_self total) refl)

header_lem :
    (chunks : Chunks)
    → length (cdix_tag ++ put_chunks chunks) < 2 ^ 32
    → read_header (length (write_riff chunks)) (at_ 0 (write_riff chunks) 0)
      ≡ (ok tt, at_ 12 (put_chunks chunks) 12)
unfolding read_header write_riff
header_lem chunks small =
    let n : ℕ = length (cdix_tag ++ put_chunks chunks) in
    let header : Bytes = riff_tag ++ (pack32 n ++ cdix_tag) in
    let total : ℕ = length (riff_tag ++ (pack32 n ++ (cdix_tag ++ put_chunks chunks))) in
    let split : riff_tag ++ (pack32 n ++ (cdix_tag ++ put_chunks chunks))
        ≡ header ++ put_chunks chunks =
      unfold pack32 in refl in
    let twelve : length header ≡ 12 = unfold pack32 in refl in
    let whole : n + 8 ≡ total =
      omega (arith, length-append (pack32 n) (cdix_tag ++ put_chunks chunks), length-pack32 n) in
    ap (λ (t : Bytes). and_then (take_stream 12) (header_step total) (at_ 0 t 0)) split
    ∙ and_then_ok (take_stream 12) (header_step total) (at_ 0 (header ++ put_chunks chunks) 0)
        (take_stream-append header (put_chunks chunks) 12 0 0 twelve)
    ∙ header_step-lem n total (at_ 12 (put_chunks chunks) 12) small whole

has_seen-has_all :
    (tags : List Bytes) (scan : Scan) (chunks : Chunks)
    → Keeps scan chunks
    → has_seen tags scan.seen ≡ has_all tags chunks
unfolding has_seen has_all
has_seen-has_all [] scan chunks k = refl
has_seen-has_all (t ∷ tags) scan chunks k = rw (k.seen t, has_seen-has_all tags scan chunks k) refl

owner_of_nodes-own :
    (strings : List Text) (srcs rest : Bytes) (sources : Sources) (uri : Text) (node : SourceNode)
    → while_remaining (sources_step strings) (length srcs) [] srcs ≡ ok (sources, rest)
    → All (λ (s : Text × SourceNode). s.0 ≢ []) sources
    → own_nodes sources ≡ (uri, node) ∷ []
    → owner_of_nodes strings srcs ≡ ok uri
unfolding owner_of_nodes
owner_of_nodes-own strings srcs rest sources uri node run named own =
    let (o, run', f) =
      owners_loop strings (length srcs) [] sources (record { uris = []; own = [] }) srcs rest
        (record { seen = λ u. unfold seen_uri has_uri in refl; own = unfold own_nodes in refl })
        named run in
    let one : o.own ≡ uri ∷ [] = f.own ∙ ap uris_of own in rw (run', owner_of_nodes) (rw one refl)

owner_of_chunks-own :
    (z : Zlib) (chunks : Chunks) (scan : Scan) (shard : Shard) (uri : Text) (node : SourceNode)
    → IsContainer chunks
    → Keeps scan chunks
    → decode_chunks z chunks ≡ ok shard
    → All (λ (s : Text × SourceNode). s.0 ≢ []) shard.sources
    → own_nodes shard.sources ≡ (uri, node) ∷ []
    → owner_of_chunks z scan ≡ ok uri
unfolding owner_of_chunks
owner_of_chunks-own z chunks scan shard uri node c k decoded named own =
    let p = decode_chunks_inv z chunks shard decoded in
    let complete : has_seen required scan.seen ≡ true =
      has_seen-has_all required scan chunks k ∙ c.complete in
    let meta : find meta_tag scan.chunks ≡ some packed_version =
      k.kept meta_tag (unfold member in refl) ∙ c.current in
    let stri : find stri_tag scan.chunks ≡ some p.table =
      k.kept stri_tag (unfold member in refl) ∙ p.stri_there in
    let srcs : find srcs_tag scan.chunks ≡ some p.srcs =
      k.kept srcs_tag (unfold member in refl) ∙ p.srcs_there in
    rw (complete, meta)
      (rw (stri, p.strings_there)
        (rw srcs (
          owner_of_nodes-own p.strings p.srcs p.rest shard.sources uri node p.sources_there named
            own)))

-- The metadata of a file that can be read at all is small enough to read.
abbrev pub HasSmallMetadata : Bytes → Type 0
HasSmallMetadata raw = (chunks : Chunks) → read_chunks raw ≡ ok chunks → All IsSmall chunks

scan_file-write :
    (chunks : Chunks)
    → IsContainer chunks
    → length (cdix_tag ++ put_chunks chunks) < 2 ^ 32
    → All IsSmall chunks
    → Scanned chunks
        (length (write_riff chunks))
        (12 + reads chunks)
        (scan_file (length (write_riff chunks)) (at_ 0 (write_riff chunks) 0))
unfolding scan_file
scan_file-write chunks c small fits =
    let total : ℕ = length (write_riff chunks) in
    let size : total ≡ 12 + length (put_chunks chunks) = unfold write_riff pack32 in omega arith in
    let (scan, run, k) =
      scan_loop-put_chunks total total empty_scan [] chunks 12 12
        (record { seen = λ t. unfold member has in refl; kept = λ t meta. refl }) c.fresh c.known
        fits (sym size) (omega arith) in
    (
      scan,
      and_then_ok (read_header total) (λ _. scan_loop total total empty_scan)
            (at_ 0 (write_riff chunks) 0) (header_lem chunks small)
          ∙ run,
      k,
    )

same_stat_self : (st : Stat) → same_stat st st ≡ true
same_stat_self st = rw (nat_eq_self st.size, nat_eq_self st.mtime, nat_eq_self st.inode) refl

read_owner-scanned :
    (z : Zlib) (st : Stat) (raw : Bytes) (scan : Scan) (s : Stream)
    → scan_file st.size (at_ 0 raw 0) ≡ (ok scan, s)
    → read_owner z true st st raw ≡ (owner_of_chunks z scan, s)
unfolding read_owner finish
read_owner-scanned z st raw scan s e = rw e (rw (same_stat_self st) refl)

-- How a well-formed container of the size that `os.fstat` gives is scanned.
scan_of_chunks :
    (st : Stat) (raw : Bytes) (chunks : Chunks)
    → All IsByte raw
    → st.size ≡ length raw
    → HasSmallMetadata raw
    → read_chunks raw ≡ ok chunks
    → Scanned chunks (length raw) (12 + reads chunks) (scan_file st.size (at_ 0 raw 0))
scan_of_chunks st raw chunks bytes whole fits got =
    let (c, made, small) = (read_chunks_exact raw chunks bytes).0 got in
    subst (λ n. Scanned chunks (length raw) (12 + reads chunks) (scan_file n (at_ 0 raw 0)))
      (sym whole)
      (subst (λ t. Scanned chunks (length t) (12 + reads chunks) (scan_file (length t) (at_ 0 t 0)))
        (sym made) (scan_file-write chunks c small (fits chunks got)))

-- For a file that decodes to a shard with one own node, no empty URI and metadata chunks of 256 MiB at
-- most, and that does not change while it is read, `read_owner` returns the URI of that node: the one
-- under which `canonical_file_graph` enters the shard.
pub read_owner-decode_shard :
    (z : Zlib) (st : Stat) (raw : Bytes) (shard : Shard) (uri : Text) (node : SourceNode)
    → All IsByte raw
    → st.size ≡ length raw
    → HasSmallMetadata raw
    → decode_shard z raw ≡ ok shard
    → All (λ (s : Text × SourceNode). s.0 ≢ []) shard.sources
    → own_nodes shard.sources ≡ (uri, node) ∷ []
    → (read_owner z true st st raw).0 ≡ ok uri
unfolding decode_shard
read_owner-decode_shard z st raw shard uri node bytes whole fits decoded named own =
    >>=-elim-ok (read_chunks raw) _ decoded λ chunks got e.
      let (scan, run, k) = scan_of_chunks st raw chunks bytes whole fits got in
      let (c, made, small) = (read_chunks_exact raw chunks bytes).0 got in
      ap (λ (r : Result OwnerFault Text × Stream). r.0) (read_owner-scanned z st raw scan _ run)
      ∙ owner_of_chunks-own z chunks scan shard uri node c k e named own

-- Of a well-formed container, `read_owner` reads the header, the head and padding of each chunk, and
-- the payloads of the metadata chunks; whatever it then finds, it has read no payload of symbols,
-- references, relations or commands.
pub read_owner-bytes_read :
    (z : Zlib) (st : Stat) (raw : Bytes) (chunks : Chunks)
    → All IsByte raw
    → st.size ≡ length raw
    → HasSmallMetadata raw
    → read_chunks raw ≡ ok chunks
    → (read_owner z true st st raw).1.bytes_read ≡ 12 + reads chunks
read_owner-bytes_read z st raw chunks bytes whole fits got =
    let (scan, run, k) = scan_of_chunks st raw chunks bytes whole fits got in
    ap (λ (r : Result OwnerFault Text × Stream). r.1.bytes_read)
      (read_owner-scanned z st raw scan _ run)
