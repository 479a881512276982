-- ===== src/IndexGraph/Decode/Inverse.antt =====
-- What a shard that decoded says of the chunks that it was decoded from.
use nvim_dot_files.Prelude.{
  ◌≡◌, List, [], some, length, Option-cases, Eq-number, Eq-list, Eq-option, inl, inr,
}
use nvim_dot_files.Prelude.Result.{Result, ok, err, >>=-elim-ok}
use nvim_dot_files.IndexGraph.Reader.{Bytes, Text, Fault, while_remaining}
use nvim_dot_files.IndexGraph.Riff.{
  Chunks, find, symb_tag, refs_tag, rela_tag, cmdl_tag, stri_tag, srcs_tag,
}
use nvim_dot_files.IndexGraph.Strings.{Zlib, read_strings}
use nvim_dot_files.IndexGraph.Shard.{Shard, symbols_step, refs_step, relations_step, sources_step}
use nvim_dot_files.IndexGraph.Decode.{chunk, run_loop, read_command, decode_chunks}

-- The parts of a shard that decoded.
pub record Parts (z : Zlib) (chunks : Chunks) (shard : Shard) : Type 0 where
  pub table : Bytes
  pub strings : List Text
  pub srcs : Bytes
  pub rest : Bytes
  pub stri_there : find stri_tag chunks ≡ some table
  pub strings_there : read_strings z table ≡ ok strings
  pub srcs_there : find srcs_tag chunks ≡ some srcs
  pub sources_there :
      while_remaining (sources_step strings) (length srcs) [] srcs ≡ ok (shard.sources, rest)

pub chunk_inv :
    (tag : Bytes) (chunks : Chunks) (raw : Bytes)
    → chunk tag chunks ≡ ok raw
    → find tag chunks ≡ some raw
chunk_inv tag chunks raw e = elim (Option-cases (find tag chunks)) [
  | inl missing ↦ cc (rw (missing, chunk) at e)
  | inr (r, there) ↦ cc (there, rw (there, chunk) at e)
]

pub while_inv :
    {S : Type 0} (r : Result Fault (List S × Bytes)) (s : List S)
    → ◌≡◌ {A = Result Fault (List S)} (elim r [ err e ↦ err e | ok (t, _) ↦ ok t ]) (ok s)
    → (rest : Bytes) × (r ≡ ok (s, rest))
while_inv (ok (t, rest)) s e = (rest, cc e)
while_inv (err x) s e = cc

pub decode_chunks_inv :
    (z : Zlib) (chunks : Chunks) (shard : Shard)
    → decode_chunks z chunks ≡ ok shard
    → Parts z chunks shard
unfolding decode_chunks
decode_chunks_inv z chunks shard e = >>=-elim-ok (chunk stri_tag chunks) _ e λ table p₁ e₁.
    >>=-elim-ok (read_strings z table) _ e₁ λ strings p₂ e₂.
      >>=-elim-ok (chunk symb_tag chunks) _ e₂ λ symb p₃ e₃.
        >>=-elim-ok (run_loop (symbols_step strings) symb) _ e₃ λ symbols p₄ e₄.
          >>=-elim-ok (chunk refs_tag chunks) _ e₄ λ refs_chunk p₅ e₅.
            >>=-elim-ok (run_loop (refs_step strings) refs_chunk) _ e₅ λ refs p₆ e₆.
              >>=-elim-ok (chunk rela_tag chunks) _ e₆ λ rela p₇ e₇.
                >>=-elim-ok (run_loop relations_step rela) _ e₇ λ relations p₈ e₈.
                  >>=-elim-ok (chunk srcs_tag chunks) _ e₈ λ srcs p₉ e₉.
                    >>=-elim-ok (run_loop (sources_step strings) srcs) _ e₉ λ sources p e'.
                      >>=-elim-ok (read_command strings (find cmdl_tag chunks)) _ e'
                        λ command q last.
                          let (rest, run) =
                            while_inv (while_remaining (sources_step strings) (length srcs) [] srcs)
                              sources p in
                          let same : sources ≡ shard.sources = cc last in
                          record {
                            table = table;
                            strings = strings;
                            srcs = srcs;
                            rest = rest;
                            stri_there = chunk_inv stri_tag chunks table p₁;
                            strings_there = p₂;
                            srcs_there = chunk_inv srcs_tag chunks srcs p₉;
                            sources_there = rw (← same) run;
                          }
