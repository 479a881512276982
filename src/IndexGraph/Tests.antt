-- ===== src/IndexGraph/Tests.antt =====
-- The theorems about tools/clangd_index_graph.py on one small file.
use nvim_dot_files.Prelude.{
  ◌+◌, ◌^◌, ◌<◌, ◌≤◌, inr, ◌≡◌, ◌≢◌, ◌↔◌, refl, List, [], ◌∷◌, ◌++◌, none, map, length,
  if◌then◌else◌, Eq-number, Eq-list, All, arith,
}
use mathlib.Core.List.Perm
use nvim_dot_files.Prelude.Result.{ok, err}
use nvim_dot_files.Prelude.Texts.{codes}
use nvim_dot_files.Prelude.Sorting.{IsSortedBy, sorted_by}
use nvim_dot_files.IndexGraph.Reader.{Bytes, Text, var, var_loop, out_of_fuel}
use nvim_dot_files.IndexGraph.Reader.Varint.{put_var, var-put_var, var_bounds}
use nvim_dot_files.IndexGraph.Riff.{read_chunks, cdix_tag}
use nvim_dot_files.IndexGraph.Riff.RoundTrip.{put_chunks, write_riff, IsContainer}
use nvim_dot_files.IndexGraph.Riff.Exact.{read_chunks_exact}
use nvim_dot_files.IndexGraph.Utf8.{decode}
use nvim_dot_files.IndexGraph.Utf8.Lossless.{IsByte, encode, encode-decode}
use nvim_dot_files.IndexGraph.Strings.{read_strings}
use nvim_dot_files.IndexGraph.Strings.RoundTrip.{put_table, read_strings-put_table}
use nvim_dot_files.IndexGraph.Shard.{Ref, Shard}
use nvim_dot_files.IndexGraph.Decode.{decode_shard}
use nvim_dot_files.IndexGraph.Decode.Total.{decode_shard_ends}
use nvim_dot_files.IndexGraph.Decode.RoundTrip.{decode_shard-write_shard}
use nvim_dot_files.IndexGraph.Decode.Layout.{shard_of, write_shard}
use nvim_dot_files.IndexGraph.Key.Injective.{symbol_key-injective}
use nvim_dot_files.IndexGraph.Key.Compare.{text_order}
use nvim_dot_files.IndexGraph.Canonical.{
  FileEntry, Graph, entry_at, entry_of, own_entry, canonical_file_graph,
}
use nvim_dot_files.IndexGraph.Canonical.Order.{canonical_file_graph-AllSame}
use nvim_dot_files.IndexGraph.Canonical.Dictionary.{IsUnique}
use nvim_dot_files.IndexGraph.Canonical.Lookup.{own_at, listed, canonical_file_graph_lookup}
use nvim_dot_files.IndexGraph.Sample.{
  one_table, packed_table, some_symbol, some_ref, own_file, index_of, small, small-IsLayout,
  six_chunks, six-IsByte,
}

decode_shard-write_shard_example :
    decode_shard one_table (write_shard index_of small) ≡ ok (shard_of small)
decode_shard-write_shard_example = decode_shard-write_shard index_of one_table small small-IsLayout

decode_shard_ends_example : decode_shard one_table (write_shard index_of small) ≢ err out_of_fuel
decode_shard_ends_example = decode_shard_ends one_table (write_shard index_of small)

read_chunks_exact_example : (read_chunks (write_riff six_chunks) ≡ ok six_chunks) ↔ (
    IsContainer six_chunks
    × (write_riff six_chunks ≡ write_riff six_chunks)
    × (length (cdix_tag ++ put_chunks six_chunks) < 2 ^ 32))
read_chunks_exact_example = read_chunks_exact (write_riff six_chunks) six_chunks six-IsByte

read_strings-put_table_example :
    read_strings one_table packed_table ≡ ok (map decode ([] ∷ (b'a' ∷ []) ∷ []))
read_strings-put_table_example =
    read_strings-put_table one_table 3 (7 ∷ []) [] ((b'a' ∷ []) ∷ []) (omega arith)
      (inr (omega arith, unfold put_table in refl, omega arith, refl)) (tt, ((refl, tt), tt))

var-put_var_example : var (put_var 4 70000 ++ 9 ∷ []) ≡ ok (70000, 9 ∷ [])
var-put_var_example = var-put_var 70000 (9 ∷ []) (omega arith)

abbrev number_456 : Bytes
number_456 = 200 ∷ 3 ∷ 7 ∷ []

abbrev after_456 : Bytes
after_456 = 7 ∷ []

var_bounds_example :
    (456 < 2 ^ 32)
    × (length after_456 < length number_456)
    × (length number_456 ≤ length after_456 + 5)
var_bounds_example = var_bounds 456 number_456 after_456 (unfold var var_loop in refl)

-- "é", and a byte that is no UTF-8.
abbrev two_bytes : Bytes
two_bytes = 195 ∷ 169 ∷ 255 ∷ []

two-IsByte : All IsByte two_bytes
two-IsByte = (omega arith, (omega arith, (omega arith, tt)))

encode-decode_example : encode (decode two_bytes) ≡ two_bytes
encode-decode_example = encode-decode two_bytes two-IsByte

symbol_key-injective_example : some_symbol ≡ some_symbol
symbol_key-injective_example = symbol_key-injective some_symbol some_symbol refl

abbrev other_ref : Ref
other_ref = record some_ref { kind = 8 }

abbrev two_refs : List Ref → Shard
two_refs refs = record (shard_of small) { refs = refs }

canonical_file_graph-AllSame_example :
    canonical_file_graph (two_refs (some_ref ∷ other_ref ∷ []) ∷ []) []
    ≡ canonical_file_graph (two_refs (other_ref ∷ some_ref ∷ []) ∷ []) []
canonical_file_graph-AllSame_example =
    canonical_file_graph-AllSame (two_refs (some_ref ∷ other_ref ∷ []) ∷ [])
      (two_refs (other_ref ∷ some_ref ∷ []) ∷ []) []
      (
        record {
          version = refl;
          sources = refl;
          symbols = Perm.rfl;
          refs = Perm.swap other_ref some_ref [];
          relations = Perm.rfl;
        },
        tt,
      )

abbrev small_graph : Graph
small_graph = (codes "a", entry_of (shard_of small) own_file.1) ∷ []

small-canonical : canonical_file_graph (shard_of small ∷ []) (codes "b" ∷ []) ≡ ok small_graph
unfolding canonical_file_graph own_entry sorted_by
small-canonical = refl

canonical_file_graph_lookup_example :
    ((u : Text)
      → entry_at u small_graph
        ≡ (if listed u (codes "b" ∷ []) then none else own_at u (shard_of small ∷ [])))
    × IsUnique small_graph
    × IsSortedBy text_order (λ (p : Text × FileEntry). p.0) small_graph
canonical_file_graph_lookup_example =
    canonical_file_graph_lookup (shard_of small ∷ []) (codes "b" ∷ []) small_graph small-canonical
