-- ===== src/IndexGraph/Strings.antt =====
-- `_strings` of tools/clangd_index_graph.py: the string table of a shard.
pub mod RoundTrip
use nvim_dot_files.Prelude.{
  ℕ, zero, suc, ◌*◌, ◌+◌, ◌≡◌, Bool, true, false, not, ◌&&◌, ◌||◌, List, [], ◌∷◌, Option, none,
  some, map, length, ltb, nat_eq, if◌then◌else◌, ◌==◌, Eq-number, Eq-list,
}
use nvim_dot_files.Prelude.Result.{Result, ok, err}
use nvim_dot_files.IndexGraph.Reader.{
  Bytes, Text, Fault, u32, table_too_large, invalid_compression, table_size_mismatch,
  unterminated_table,
}
use nvim_dot_files.IndexGraph.Utf8.{decode}

-- What a `zlib.decompressobj()` holds after `decompress(raw, max_length)`.
pub record Inflated : Type 0 where
  pub output : Bytes
  pub eof : Bool
  pub unused_data : Bytes
  pub unconsumed_tail : Bytes

-- The compression library: `none` is `zlib.error`.
pub record Zlib : Type 0 where
  pub decompress : Bytes → ℕ → Option Inflated

-- `_MAX_STRING_TABLE`
abbrev pub max_string_table : ℕ
max_string_table = 256 * 1024 * 1024

abbrev accepts : ℕ → Inflated → Bool
accepts size i =
    nat_eq (length i.output) size && (i.eof && (i.unused_data == [] && i.unconsumed_tail == []))

unfoldable pub inflate : Zlib → ℕ → Bytes → Result Fault Bytes
inflate z size raw = elim (z.decompress raw (size + 1)) [
  | none ↦ err invalid_compression
  | some i ↦ if accepts size i then ok i.output else err table_size_mismatch
]

-- `raw.endswith(b"\0")`
unfoldable pub ends_with_nul : Bytes → Bool
ends_with_nul [] = false
ends_with_nul (b ∷ []) = b == 0
ends_with_nul (b ∷ c ∷ rest) = ends_with_nul (c ∷ rest)

abbrev onto_first : ℕ → List Bytes → List Bytes
onto_first b [] = (b ∷ []) ∷ []
onto_first b (t ∷ ts) = (b ∷ t) ∷ ts

-- `raw[:-1].split(b"\0")`
unfoldable pub split_terminated : Bytes → List Bytes
split_terminated [] = [] ∷ []
split_terminated (b ∷ []) = [] ∷ []
split_terminated (b ∷ c ∷ rest) =
    let parts = split_terminated (c ∷ rest) in if b == 0 then [] ∷ parts else onto_first b parts

-- `size` is the length before compression, and 0 says that the table is stored plain.
unfoldable pub table_of : Zlib → ℕ → Bytes → Result Fault (List Text)
unfolding inflate ends_with_nul split_terminated
table_of z size stored =
    if ltb max_string_table size
    then err table_too_large
    else elim (if nat_eq size 0 then ok stored else inflate z size stored) [
      | err e ↦ err e
      | ok raw ↦
          if ends_with_nul raw
          then ok (map decode (split_terminated raw))
          else err unterminated_table
    ]

unfoldable pub read_strings : Zlib → Bytes → Result Fault (List Text)
unfolding u32 table_of
read_strings z chunk = elim (u32 chunk) [
  | err e ↦ err e
  | ok (size, stored) ↦ table_of z size stored
]
