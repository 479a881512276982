-- ===== src/IndexGraph/Decode/RoundTrip.antt =====
-- `decode_shard` on a whole file: it returns the shard that a writer of the format was given.
use nvim_dot_files.Prelude.{
  ℕ, ◌^◌, ◌<◌, ◌≡◌, refl, ap, List, [], ◌∷◌, ◌++◌, Option, none, some, length, length-append, All,
  arith,
}
use nvim_dot_files.Prelude.Result.{ok, ◌>>=◌}
use nvim_dot_files.IndexGraph.Reader.{Bytes, Text, Reader}
use nvim_dot_files.IndexGraph.Reader.Reads.{Reads, put_all, Chain, outputs, loop-put_all, unhex}
use nvim_dot_files.IndexGraph.Riff.{
  Chunks, find, stri_tag, symb_tag, refs_tag, rela_tag, srcs_tag, cmdl_tag, version,
}
use nvim_dot_files.IndexGraph.Riff.RoundTrip.{read_chunks-write}
use nvim_dot_files.IndexGraph.Strings.{Zlib, read_strings}
use nvim_dot_files.IndexGraph.Shard.{
  Shard, Symbol, Ref, Relation, SourceNode, Sources, Command, symbols_step, refs_step,
  relations_step, sources_step,
}
use nvim_dot_files.IndexGraph.Shard.RoundTrip.{IsSymbol, put_symbol}
use nvim_dot_files.IndexGraph.Shard.Loops.{
  IsGroup, put_group, Reads-refs_step, Reads-symbols_step, IsSource, put_source, Reads-sources_step,
  command-put_command, IsRelation, put_relation, Reads-relations_step,
}
use nvim_dot_files.IndexGraph.Decode.{chunk, run_loop, read_command, decode_chunks, decode_shard}
use nvim_dot_files.IndexGraph.Decode.Layout.{
  Layout, flatten_groups, shard_of, command_payload, chunks_of, write_shard, IsOptionalCommand,
  AreSources, IsLayout, fits-All, payloads-IsContainer, payloads_found,
}

append_pos : (xs ys : Bytes) → 0 < length xs → 0 < length (xs ++ ys)
append_pos xs ys h = omega (arith, length-append xs ys)

-- A loop that appends the record it reads returns the records that were laid out.
module _ {S : Type 0} (body : List S → Reader (List S)) (put : S → Bytes)
    (Good : List S → S → Type 0)
    (reads : (before : List S) (s : S)
      → Good before s
      → Reads (body before) (put s) (before ++ s ∷ []))
    (pos : (before : List S) (s : S) → Good before s → 0 < length (put s)) where
  one_each : (xs : List S) → outputs body put (λ s. s ∷ []) Good xs ≡ xs
  one_each [] = refl
  one_each (x ∷ xs) = ap (λ (t : List S). x ∷ t) (one_each xs)

  run_loop-put_all :
      (xs : List S)
      → Chain body put (λ s. s ∷ []) Good [] xs
      → run_loop body (put_all put xs) ≡ ok xs
  run_loop-put_all xs h =
      rw
        (
          loop-put_all body put (λ s. s ∷ []) Good reads pos (length (put_all put xs)) [] xs h
              (omega arith),
          run_loop,
        )
        (ap ok (one_each xs))

module _ (ix : Text → ℕ) (strings : List Text) where
  symbols-Chain :
      (before xs : List Symbol)
      → All (IsSymbol strings ix) xs
      → Chain
          (symbols_step strings)
          (put_symbol strings ix)
          (λ s. s ∷ [])
          (λ _. IsSymbol strings ix)
          before
          xs
  symbols-Chain before [] h = tt
  symbols-Chain before (x ∷ xs) (g, h) = (g, symbols-Chain (before ++ x ∷ []) xs h)

  groups-Chain :
      (before : List Ref) (xs : List (Text × List Ref))
      → All (IsGroup strings ix) xs
      → Chain
          (refs_step strings)
          (put_group strings ix)
          (λ g. g.1)
          (λ _. IsGroup strings ix)
          before
          xs
  groups-Chain before [] h = tt
  groups-Chain before (x ∷ xs) (g, h) = (g, groups-Chain (before ++ x.1) xs h)

  sources-Chain :
      (before xs : Sources)
      → AreSources ix strings before xs
      → Chain
          (sources_step strings)
          (put_source strings ix)
          (λ s. s ∷ [])
          (IsSource strings ix)
          before
          xs
  sources-Chain before [] h = tt
  sources-Chain before (x ∷ xs) (g, h) = (g, sources-Chain (before ++ x ∷ []) xs h)

  groups_flat :
      (xs : List (Text × List Ref))
      → outputs (refs_step strings) (put_group strings ix) (λ g. g.1) (λ _. IsGroup strings ix) xs
        ≡ flatten_groups xs
  groups_flat [] = refl
  groups_flat (x ∷ xs) = ap (λ (t : List Ref). x.1 ++ t) (groups_flat xs)

  group_pos :
      (before : List Ref) (g : Text × List Ref)
      → IsGroup strings ix g
      → 0 < length (put_group strings ix g)
  unfolding put_group
  group_pos before (id, refs) w = append_pos (unhex id) _ (omega (arith, w.0.0))

  source_pos :
      (before : Sources) (s : Text × SourceNode)
      → IsSource strings ix before s
      → 0 < length (put_source strings ix s)
  unfolding put_source
  source_pos before (uri, node) w = omega arith

  symbol_pos :
      (before : List Symbol) (s : Symbol)
      → IsSymbol strings ix s
      → 0 < length (put_symbol strings ix s)
  unfolding put_symbol
  symbol_pos before s w = append_pos (unhex s.id) _ (omega (arith, w.id.0))

  run_symbols :
      (xs : List Symbol)
      → All (IsSymbol strings ix) xs
      → run_loop (symbols_step strings) (put_all (put_symbol strings ix) xs) ≡ ok xs
  run_symbols xs h =
      run_loop-put_all (symbols_step strings) (put_symbol strings ix) (λ _. IsSymbol strings ix)
        (Reads-symbols_step strings ix) symbol_pos xs (symbols-Chain [] xs h)

  run_groups :
      (xs : List (Text × List Ref))
      → All (IsGroup strings ix) xs
      → run_loop (refs_step strings) (put_all (put_group strings ix) xs) ≡ ok (flatten_groups xs)
  run_groups xs h =
      rw
        (
          loop-put_all (refs_step strings) (put_group strings ix) (λ g. g.1)
              (λ _. IsGroup strings ix) (Reads-refs_step strings ix) group_pos
              (length (put_all (put_group strings ix) xs)) [] xs (groups-Chain [] xs h)
              (omega arith),
          run_loop,
        )
        (ap ok (groups_flat xs))

  run_sources :
      (xs : Sources)
      → AreSources ix strings [] xs
      → run_loop (sources_step strings) (put_all (put_source strings ix) xs) ≡ ok xs
  run_sources xs h =
      run_loop-put_all (sources_step strings) (put_source strings ix) (IsSource strings ix)
        (Reads-sources_step strings ix) source_pos xs (sources-Chain [] xs h)

  run_command :
      (o : Option Command)
      → IsOptionalCommand ix strings o
      → read_command strings (command_payload ix strings o) ≡ ok o
  run_command none w = refl
  run_command (some c) w = rw (command-put_command strings ix c w, read_command) refl

relation_pos : (before : List Relation) (r : Relation) → IsRelation r → 0 < length (put_relation r)
unfolding put_relation
relation_pos before r w =
    omega (arith, length-append (unhex r.subject) (r.predicate ∷ unhex r.object), w.subject.0)

relations-Chain :
    (before xs : List Relation)
    → All IsRelation xs
    → Chain relations_step put_relation (λ s. s ∷ []) (λ _. IsRelation) before xs
relations-Chain before [] h = tt
relations-Chain before (x ∷ xs) (g, h) = (g, relations-Chain (before ++ x ∷ []) xs h)

run_relations :
    (xs : List Relation)
    → All IsRelation xs
    → run_loop relations_step (put_all put_relation xs) ≡ ok xs
run_relations xs h =
    run_loop-put_all relations_step put_relation (λ _. IsRelation) Reads-relations_step relation_pos
      xs (relations-Chain [] xs h)

decode_chunks_lem :
    (z : Zlib) (chunks : Chunks) (table symb refs_chunk rela srcs : Bytes) (strings : List Text)
    (l : Shard)
    → chunk stri_tag chunks ≡ ok table
    → read_strings z table ≡ ok strings
    → chunk symb_tag chunks ≡ ok symb
    → run_loop (symbols_step strings) symb ≡ ok l.symbols
    → chunk refs_tag chunks ≡ ok refs_chunk
    → run_loop (refs_step strings) refs_chunk ≡ ok l.refs
    → chunk rela_tag chunks ≡ ok rela
    → run_loop relations_step rela ≡ ok l.relations
    → chunk srcs_tag chunks ≡ ok srcs
    → run_loop (sources_step strings) srcs ≡ ok l.sources
    → read_command strings (find cmdl_tag chunks) ≡ ok l.command
    → decode_chunks z chunks ≡ ok (record l { version = version })
unfolding decode_chunks
decode_chunks_lem z chunks table symb refs_chunk rela srcs strings l a b c d e f g h i j k = cc

-- `decode_shard` returns, record for record and in order, the shard that a writer of the format laid
-- out in a file: its symbols, references, relations, source nodes and command.
pub decode_shard-write_shard :
    (ix : Text → ℕ) (z : Zlib) (l : Layout)
    → IsLayout ix z l
    → decode_shard z (write_shard ix l) ≡ ok (shard_of l)
unfolding decode_shard write_shard
decode_shard-write_shard ix z l w =
    let symb = put_all (put_symbol l.strings ix) l.symbols in
    let refs = put_all (put_group l.strings ix) l.groups in
    let rela = put_all put_relation l.relations in
    let srcs = put_all (put_source l.strings ix) l.sources in
    let cmdl = command_payload ix l.strings l.command in
    let container =
      payloads-IsContainer l.table symb refs rela srcs cmdl
        (fits-All (2 ^ 32) (chunks_of ix l) (omega (arith, w.fits))) in
    let (a, b, c, d, e, f) = payloads_found l.table symb refs rela srcs cmdl in
    rw (read_chunks-write (chunks_of ix l) container w.fits, ◌>>=◌)
      (decode_chunks_lem z (chunks_of ix l) l.table symb refs rela srcs l.strings (shard_of l) a
        w.table b (run_symbols ix l.strings l.symbols w.symbols) c
        (run_groups ix l.strings l.groups w.groups) d (run_relations l.relations w.relations) e
        (run_sources ix l.strings l.sources w.sources)
        (rw f (run_command ix l.strings l.command w.command)))
