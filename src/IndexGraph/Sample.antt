-- ===== src/IndexGraph/Sample.antt =====
-- A small shard, its layout and its file, as data for the tests of tools/clangd_index_graph.py.
use nvim_dot_files.Prelude.{
  ℕ, ◌≡◌, refl, Bool, true, List, [], ◌∷◌, ◌++◌, none, some, length, if◌then◌else◌, ◌==◌, Eq-number,
  Eq-list, All, ltb, ◌&&◌, arith,
}
use nvim_dot_files.Prelude.Result.{ok}
use nvim_dot_files.Prelude.Texts.{codes}
use nvim_dot_files.IndexGraph.Reader.{Bytes, Text, Location}
use nvim_dot_files.IndexGraph.Reader.Varint.{put_var}
use nvim_dot_files.IndexGraph.Reader.Inverse.{pack32}
use nvim_dot_files.IndexGraph.Riff.{
  Chunks, read_chunks, cdix_tag, meta_tag, stri_tag, symb_tag, refs_tag, rela_tag, srcs_tag,
  packed_version,
}
use nvim_dot_files.IndexGraph.Riff.RoundTrip.{put_chunks, write_riff}
use nvim_dot_files.IndexGraph.Utf8.{decode}
use nvim_dot_files.IndexGraph.Utf8.Lossless.{IsByte}
use nvim_dot_files.IndexGraph.Strings.{Zlib, read_strings}
use nvim_dot_files.IndexGraph.Strings.RoundTrip.{put_table}
use nvim_dot_files.IndexGraph.Shard.{Symbol, Ref, SourceNode}
use nvim_dot_files.IndexGraph.Reader.{hex}
use nvim_dot_files.IndexGraph.Reader.Reads.{Indexed, IsId, IsLocation, unhex}
use nvim_dot_files.IndexGraph.Shard.{has_uri}
use nvim_dot_files.IndexGraph.Shard.RoundTrip.{IsSymbol, put_symbol, put_header}
use nvim_dot_files.IndexGraph.Shard.Loops.{
  put_group, put_ref, put_relation, put_source, put_command,
}
use nvim_dot_files.IndexGraph.Reader.Reads.{put_location}
use nvim_dot_files.IndexGraph.Decode.Layout.{chunks_of}
use nvim_dot_files.IndexGraph.Riff.RoundTrip.{put_chunk, pad_of}
use nvim_dot_files.IndexGraph.Decode.Layout.{Layout, IsLayout, write_shard}

-- A library that packs nothing but one table, and unpacks that one.
abbrev pub one_table : Zlib
one_table = record {
  decompress = λ raw limit.
      if raw == 7 ∷ []
      then some (record {
        output = put_table ([] ∷ (b'a' ∷ []) ∷ []);
        eof = true;
        unused_data = [];
        unconsumed_tail = [];
      })
      else none;
}

abbrev pub packed_table : Bytes
packed_table = pack32 3 ++ 7 ∷ []

abbrev pub some_id : Text
some_id = codes "0123456789abcdef"

abbrev pub place : Location
place = record { uri = codes "a"; start = (3, 200); end = (3, 204) }

abbrev pub some_symbol : Symbol
some_symbol = record {
  id = some_id;
  kind = 5;
  language = 1;
  name = codes "a";
  scope = [];
  template_specialization_args = [];
  definition = place;
  canonical_declaration = place;
  references = 300;
  flags = 2;
  signature = [];
  completion_snippet_suffix = [];
  documentation = [];
  return_type = [];
  type = [];
  include_headers = record { header = codes "a"; references = 2; supported_directives = 1 } ∷ [];
}

abbrev pub some_ref : Ref
some_ref = record { symbol_id = some_id; kind = 4; location = place; container = some_id }

abbrev pub own_file : Text × SourceNode
own_file = (codes "a", record { flags = 1; digest = some_id; direct_includes = [] ∷ [] })

-- The place of a text in the table: "" and "a".
abbrev pub index_of : Text → ℕ
index_of [] = 0
index_of (c ∷ t) = 1

abbrev pub small : Layout
small = record {
  table = packed_table;
  strings = [] ∷ codes "a" ∷ [];
  symbols = some_symbol ∷ [];
  groups = (some_id, some_ref ∷ []) ∷ [];
  relations = record { subject = some_id; predicate = 0; object = some_id } ∷ [];
  sources = own_file ∷ [];
  command = some (record { directory = codes "a"; arguments = codes "a" ∷ [] });
}

abbrev pub small_strings : List Text
small_strings = [] ∷ codes "a" ∷ []

no_text : Indexed small_strings index_of []
no_text = (omega arith, refl)

a_text : Indexed small_strings index_of (codes "a")
a_text = (omega arith, refl)

some_id-IsId : IsId some_id
unfolding unhex hex
some_id-IsId = (refl, refl)

place-IsLocation : IsLocation small_strings index_of place
place-IsLocation = record {
  uri = a_text;
  start = (omega arith, omega arith);
  end = (omega arith, omega arith);
}

some_symbol-IsSymbol : IsSymbol small_strings index_of some_symbol
some_symbol-IsSymbol = record {
  id = some_id-IsId;
  name = a_text;
  scope = no_text;
  template_specialization_args = no_text;
  definition = place-IsLocation;
  canonical_declaration = place-IsLocation;
  references = omega arith;
  signature = no_text;
  completion_snippet_suffix = no_text;
  documentation = no_text;
  return_type = no_text;
  type = no_text;
  headers = (record { header = a_text; directives = omega arith; packed = omega arith }, tt);
  few_headers = omega arith;
}

small-table : read_strings one_table packed_table ≡ ok small_strings
unfolding read_strings pack32 put_table decode
small-table = refl

pub small-size : length (cdix_tag ++ put_chunks (chunks_of index_of small)) ≡ 168
unfolding put_chunks put_chunk pad_of put_symbol put_header put_location put_group put_ref
    put_relation put_source put_command unhex pack32 put_var
small-size = refl

pub small-IsLayout : IsLayout index_of one_table small
small-IsLayout = record {
  table = small-table;
  symbols = (some_symbol-IsSymbol, tt);
  groups = (
    (
      some_id-IsId,
      (record { symbol_id = refl; location = place-IsLocation; container = some_id-IsId }, tt),
      omega arith,
    ),
    tt,
  );
  relations = (record { subject = some_id-IsId; object = some_id-IsId }, tt);
  sources = (
    record {
      new = unfold has_uri in refl;
      uri = a_text;
      digest = some_id-IsId;
      includes = (no_text, tt);
      few = omega arith;
    },
    tt,
  );
  command = record { directory = a_text; arguments = (a_text, tt); few = omega arith };
  fits = omega (arith, small-size);
}

-- The six chunks that a shard must have.
abbrev pub six_chunks : Chunks
six_chunks =
    (meta_tag, packed_version)
    ∷ (stri_tag, packed_table)
    ∷ (symb_tag, [])
    ∷ (refs_tag, [])
    ∷ (rela_tag, [])
    ∷ (srcs_tag, [])
    ∷ []

unfoldable pub all_bytes : Bytes → Bool
all_bytes [] = true
all_bytes (b ∷ bs) = ltb b 256 && all_bytes bs

pub all_bytes-IsByte : (bs : Bytes) → all_bytes bs ≡ true → All IsByte bs
unfolding all_bytes
all_bytes-IsByte [] e = tt
all_bytes-IsByte (b ∷ bs) e = (ground arith, all_bytes-IsByte bs (ground arith))

pub six-IsByte : All IsByte (write_riff six_chunks)
six-IsByte =
    all_bytes-IsByte (write_riff six_chunks)
      (unfold all_bytes write_riff put_chunks put_chunk pad_of pack32 in refl)

pub small-IsByte : All IsByte (write_shard index_of small)
unfolding write_shard write_riff put_chunks put_chunk pad_of put_symbol put_header put_location
    put_group put_ref put_relation put_source put_command unhex pack32 put_var all_bytes
small-IsByte = all_bytes-IsByte (write_shard index_of small) refl

pub read_chunks-small : read_chunks (write_shard index_of small) ≡ ok (chunks_of index_of small)
unfolding write_shard write_riff put_chunks put_chunk pad_of put_symbol put_header put_location
    put_group put_ref put_relation put_source put_command unhex pack32 put_var read_chunks
read_chunks-small = refl
