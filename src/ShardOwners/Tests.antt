-- ===== src/ShardOwners/Tests.antt =====
-- The theorems about tools/clangd_shard_owners.py on one small file.
use nvim_dot_files.Prelude.{◌+◌, ◌≡◌, refl, subst, true, length, All, arith}
use nvim_dot_files.Prelude.Result.{ok}
use nvim_dot_files.Prelude.Texts.{codes}
use nvim_dot_files.IndexGraph.Reader.{Bytes}
use nvim_dot_files.IndexGraph.Reader.Inverse.{pack32}
use nvim_dot_files.IndexGraph.Reader.Reads.{unhex, put_location}
use nvim_dot_files.IndexGraph.Reader.Varint.{put_var}
use nvim_dot_files.IndexGraph.Riff.{Chunks}
use nvim_dot_files.IndexGraph.Shard.RoundTrip.{put_symbol, put_header}
use nvim_dot_files.IndexGraph.Shard.Loops.{
  put_group, put_ref, put_relation, put_source, put_command,
}
use nvim_dot_files.IndexGraph.Decode.Layout.{chunks_of, shard_of, write_shard}
use nvim_dot_files.IndexGraph.Decode.RoundTrip.{decode_shard-write_shard}
use nvim_dot_files.IndexGraph.Canonical.{own_nodes}
use nvim_dot_files.IndexGraph.Sample.{
  one_table, index_of, small, small-IsLayout, small-IsByte, read_chunks-small, own_file,
}
use nvim_dot_files.ShardOwners.{Stat, read_owner}
use nvim_dot_files.ShardOwners.Scanning.{IsSmall}
use nvim_dot_files.ShardOwners.Loop.{reads}
use nvim_dot_files.ShardOwners.Agrees.{
  HasSmallMetadata, read_owner-decode_shard, read_owner-bytes_read,
}

abbrev small_file : Bytes
small_file = write_shard index_of small

abbrev small_stat : Stat
small_stat = record { size = length small_file; mtime = 5; inode = 9 }

All-small : All IsSmall (chunks_of index_of small)
unfolding put_symbol put_header put_location put_group put_ref put_relation put_source put_command
    unhex pack32 put_var
All-small = (
  λ h. omega arith,
  (
    λ h. omega arith,
    (
      λ h. omega arith,
      (λ h. omega arith, (λ h. omega arith, (λ h. omega arith, (λ h. omega arith, tt)))),
    ),
  ),
)

small_file-HasSmallMetadata : HasSmallMetadata small_file
small_file-HasSmallMetadata chunks got = subst (λ (r : Chunks). All IsSmall r) same All-small
  where
    same : chunks_of index_of small ≡ chunks
    same = cc (got, read_chunks-small)

read_owner-decode_shard_example :
    (read_owner one_table true small_stat small_stat small_file).0 ≡ ok (codes "a")
read_owner-decode_shard_example =
    read_owner-decode_shard one_table small_stat small_file (shard_of small) own_file.0 own_file.1
      small-IsByte refl small_file-HasSmallMetadata
      (decode_shard-write_shard index_of one_table small small-IsLayout) ((λ e. cc), tt)
      (unfold own_nodes in refl)

read_owner-bytes_read_example :
    (read_owner one_table true small_stat small_stat small_file).1.bytes_read
    ≡ 12 + reads (chunks_of index_of small)
read_owner-bytes_read_example =
    read_owner-bytes_read one_table small_stat small_file (chunks_of index_of small) small-IsByte
      refl small_file-HasSmallMetadata read_chunks-small
