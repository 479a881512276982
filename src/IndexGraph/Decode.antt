-- ===== src/IndexGraph/Decode.antt =====
-- `decode_shard` of tools/clangd_index_graph.py: a whole shard from its bytes.
pub mod Inverse
pub mod Total
pub mod Layout
pub mod RoundTrip
use nvim_dot_files.Prelude.{ℕ, List, [], Option, none, some, length}
use nvim_dot_files.Prelude.Result.{Result, ok, err, ◌>>=◌}
use nvim_dot_files.IndexGraph.Reader.{Bytes, Text, Fault, Reader, while_remaining, missing_chunk}
use nvim_dot_files.IndexGraph.Riff.{
  Chunks, find, read_chunks, stri_tag, symb_tag, refs_tag, rela_tag, srcs_tag, cmdl_tag, version,
}
use nvim_dot_files.IndexGraph.Strings.{Zlib, read_strings}
use nvim_dot_files.IndexGraph.Shard.{
  Shard, Command, symbols_step, refs_step, relations_step, sources_step, command,
}

-- `chunks[tag]`; the tags that the module reads so are required, and `read_chunks` has seen to them.
abbrev pub chunk : Bytes → Chunks → Result Fault Bytes
chunk tag chunks = elim (find tag chunks) [ none ↦ err missing_chunk | some raw ↦ ok raw ]

-- `reader = _Reader(raw)` and a loop to its end
abbrev pub run_loop : {S : Type 0} → (List S → Reader (List S)) → Bytes → Result Fault (List S)
run_loop body raw = elim (while_remaining body (length raw) [] raw) [
  | err e ↦ err e
  | ok (s, _) ↦ ok s
]

abbrev pub read_command : List Text → Option Bytes → Result Fault (Option Command)
read_command strings none = ok none
read_command strings (some raw) = elim (command strings raw) [
  | err e ↦ err e
  | ok (c, _) ↦ ok (some c)
]

unfoldable pub decode_chunks : Zlib → Chunks → Result Fault Shard
unfolding find read_strings symbols_step refs_step relations_step sources_step command
    while_remaining
decode_chunks z chunks = do
  table ← chunk stri_tag chunks
  strings ← read_strings z table
  symb ← chunk symb_tag chunks
  symbols ← run_loop (symbols_step strings) symb
  refs_chunk ← chunk refs_tag chunks
  refs ← run_loop (refs_step strings) refs_chunk
  rela ← chunk rela_tag chunks
  relations ← run_loop relations_step rela
  srcs ← chunk srcs_tag chunks
  sources ← run_loop (sources_step strings) srcs
  command ← read_command strings (find cmdl_tag chunks)
  ok (record {
    version = version;
    symbols = symbols;
    refs = refs;
    relations = relations;
    sources = sources;
    command = command;
  })

unfoldable pub decode_shard : Zlib → Bytes → Result Fault Shard
unfolding read_chunks decode_chunks
decode_shard z raw = do chunks ← read_chunks raw; decode_chunks z chunks
