-- ===== src/IndexGraph/Decode/Layout.antt =====
-- A shard as a writer of the format holds it, the file that it makes of it, and the chunks that
-- `decode_shard` finds there.
use nvim_dot_files.Prelude.{
  ℕ, ◌+◌, ◌^◌, ◌<◌, ◌≡◌, refl, List, [], ◌∷◌, ◌++◌, Option, none, some, length, length-append, All,
  arith,
}
use nvim_dot_files.Prelude.Result.{ok}
use nvim_dot_files.IndexGraph.Reader.{Bytes, Text}
use nvim_dot_files.IndexGraph.Reader.Reads.{put_all}
use nvim_dot_files.IndexGraph.Reader.Inverse.{pack32}
use nvim_dot_files.IndexGraph.Riff.{
  Chunks, find, has, keys_allowed, has_all, member, packed_version, cdix_tag, meta_tag, stri_tag,
  symb_tag, refs_tag, rela_tag, srcs_tag, cmdl_tag, version,
}
use nvim_dot_files.IndexGraph.Riff.RoundTrip.{
  put_chunk, put_chunks, pad_of, write_riff, IsContainer,
}
use nvim_dot_files.IndexGraph.Strings.{Zlib, read_strings}
use nvim_dot_files.IndexGraph.Shard.{Shard, Symbol, Ref, Relation, Sources, Command}
use nvim_dot_files.IndexGraph.Shard.RoundTrip.{IsSymbol, put_symbol}
use nvim_dot_files.IndexGraph.Shard.Loops.{
  IsGroup, put_group, IsSource, put_source, IsCommand, put_command, IsRelation, put_relation,
}
use nvim_dot_files.IndexGraph.Decode.{chunk}

-- A shard as the writer holds it: the bytes of its string table, the strings that they stand for, and
-- the records, with the references grouped by symbol.
pub record Layout : Type 0 where
  pub table : Bytes
  pub strings : List Text
  pub symbols : List Symbol
  pub groups : List (Text × List Ref)
  pub relations : List Relation
  pub sources : Sources
  pub command : Option Command

abbrev pub flatten_groups : List (Text × List Ref) → List Ref
flatten_groups [] = []
flatten_groups ((id, refs) ∷ groups) = refs ++ flatten_groups groups

abbrev pub shard_of : Layout → Shard
shard_of l = record {
  version = version;
  symbols = l.symbols;
  refs = flatten_groups l.groups;
  relations = l.relations;
  sources = l.sources;
  command = l.command;
}

abbrev command_chunks : Option Bytes → Chunks
command_chunks none = []
command_chunks (some c) = (cmdl_tag, c) ∷ []

-- The chunks of a file, by their payloads.
abbrev pub payloads : Bytes → Bytes → Bytes → Bytes → Bytes → Option Bytes → Chunks
payloads table symb refs rela srcs cmdl =
    (meta_tag, packed_version)
    ∷ (stri_tag, table)
    ∷ (symb_tag, symb)
    ∷ (refs_tag, refs)
    ∷ (rela_tag, rela)
    ∷ (srcs_tag, srcs)
    ∷ command_chunks cmdl

module _ (ix : Text → ℕ) where
  abbrev pub command_payload : List Text → Option Command → Option Bytes
  command_payload strings none = none
  command_payload strings (some c) = some (put_command strings ix c)

  abbrev pub chunks_of : Layout → Chunks
  chunks_of l =
      payloads l.table (put_all (put_symbol l.strings ix) l.symbols)
        (put_all (put_group l.strings ix) l.groups) (put_all put_relation l.relations)
        (put_all (put_source l.strings ix) l.sources) (command_payload l.strings l.command)

  -- The file that the writer makes.
  unfoldable pub write_shard : Layout → Bytes
  write_shard l = write_riff (chunks_of l)

  abbrev pub IsOptionalCommand : List Text → Option Command → Type 0
  IsOptionalCommand strings none = Unit
  IsOptionalCommand strings (some c) = IsCommand strings ix c

  -- Each node is new, and in range.
  abbrev pub AreSources : List Text → Sources → Sources → Type 0
  AreSources strings before [] = Unit
  AreSources strings before (s ∷ sources) =
      IsSource strings ix before s × AreSources strings (before ++ s ∷ []) sources

  -- What the writer relies on: the table stands for the strings, every text of a record is in the
  -- table, numbers are uint32s, ids are 8 bytes, no URI has two nodes, and the file has a 32-bit size.
  pub record IsLayout (z : Zlib) (l : Layout) : Type 0 where
    pub table : read_strings z l.table ≡ ok l.strings
    pub symbols : All (IsSymbol l.strings ix) l.symbols
    pub groups : All (IsGroup l.strings ix) l.groups
    pub relations : All IsRelation l.relations
    pub sources : AreSources l.strings [] l.sources
    pub command : IsOptionalCommand l.strings l.command
    pub fits : length (cdix_tag ++ put_chunks (chunks_of l)) < 2 ^ 32

payload_fits :
    (tag payload : Bytes) (chunks : Chunks) (n : ℕ)
    → length (put_chunks ((tag, payload) ∷ chunks)) < n
    → (length payload < n) × (length (put_chunks chunks) < n)
unfolding put_chunks put_chunk
payload_fits tag payload chunks n h =
    let size : Bytes = pack32 (length payload) in
    let pad : Bytes = pad_of (length payload) in
    let whole : length (put_chunk (tag, payload) ++ put_chunks chunks)
        ≡ length (put_chunk (tag, payload)) + length (put_chunks chunks) =
      length-append (put_chunk (tag, payload)) (put_chunks chunks) in
    let part₁ = length-append tag (size ++ (payload ++ pad)) in
    let part₂ = length-append size (payload ++ pad) in
    let part₃ = length-append payload pad in (omega arith, omega arith)

pub fits-All :
    (n : ℕ) (chunks : Chunks) → length (put_chunks chunks) < n → All (λ c. length c.1 < n) chunks
fits-All n [] h = tt
fits-All n ((tag, payload) ∷ chunks) h =
    let (here, there) = payload_fits tag payload chunks n h in (here, fits-All n chunks there)

pub payloads-IsContainer :
    (table symb refs rela srcs : Bytes) (cmdl : Option Bytes)
    → All (λ c. length c.1 < 2 ^ 32) (payloads table symb refs rela srcs cmdl)
    → IsContainer (payloads table symb refs rela srcs cmdl)
unfolding has keys_allowed has_all member find
payloads-IsContainer table symb refs rela srcs none (v, (a, (b, (c, (d, (e, _)))))) = record {
  fresh = (
    (refl, v, refl),
    (
      (refl, a, refl),
      ((refl, b, refl), ((refl, c, refl), ((refl, d, refl), ((refl, e, refl), tt)))),
    ),
  );
  known = refl;
  complete = refl;
  current = refl;
}
payloads-IsContainer table symb refs rela srcs (some x) (v, (a, (b, (c, (d, (e, (f, _))))))) =
    record {
      fresh = (
        (refl, v, refl),
        (
          (refl, a, refl),
          (
            (refl, b, refl),
            ((refl, c, refl), ((refl, d, refl), ((refl, e, refl), ((refl, f, refl), tt)))),
          ),
        ),
      );
      known = refl;
      complete = refl;
      current = refl;
    }

-- What `decode_shard` finds in the chunks.
pub payloads_found :
    (table symb refs rela srcs : Bytes) (cmdl : Option Bytes)
    → let chunks = payloads table symb refs rela srcs cmdl in
      (chunk stri_tag chunks ≡ ok table)
      × (chunk symb_tag chunks ≡ ok symb)
      × (chunk refs_tag chunks ≡ ok refs)
      × (chunk rela_tag chunks ≡ ok rela)
      × (chunk srcs_tag chunks ≡ ok srcs)
      × (find cmdl_tag chunks ≡ cmdl)
unfolding find
payloads_found table symb refs rela srcs none = (refl, refl, refl, refl, refl, refl)
payloads_found table symb refs rela srcs (some x) = (refl, refl, refl, refl, refl, refl)
