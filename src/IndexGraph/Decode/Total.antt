-- ===== src/IndexGraph/Decode/Total.antt =====
-- `decode_shard` ends on every input: none of its loops runs out of rounds.
use nvim_dot_files.Prelude.{
  ℕ, ◌≡◌, ◌≢◌, ap, Bool, true, false, List, [], Option, none, some, length, arith,
}
use nvim_dot_files.Prelude.Result.{Result, ok, err, ◌>>=◌}
use nvim_dot_files.IndexGraph.Reader.{
  Bytes, Text, Fault, Reader, out_of_fuel, while_remaining, take_bytes, duplicate_chunk,
  invalid_padding, not_riff, invalid_riff_size, duplicate_node, trailing_command, u32,
}
use nvim_dot_files.IndexGraph.Reader.Progress.{
  Takes, Takes-u32, Within, takes_rules, Takes-if, Takes-pure, Takes-raise, Takes-take_bytes,
  while_remaining-Within,
}
use nvim_dot_files.IndexGraph.Riff.{
  Chunks, check, padding, chunk_step, read_form, read_header, check_chunks, read_chunks,
}
use nvim_dot_files.IndexGraph.Strings.{Zlib, inflate, table_of, read_strings}
use nvim_dot_files.IndexGraph.Shard.{
  Symbol, Ref, Relation, Sources, include_header, symbol, ref, relation, symbols_step, refs_step,
  relations_step, sources_step, command, command_arguments, end_command,
}
use nvim_dot_files.IndexGraph.Decode.{chunk, run_loop, read_command, decode_chunks, decode_shard}

Takes-check : (b : Bool) (fault : Fault) → fault ≢ out_of_fuel → Takes 0 (check b fault)
Takes-check true fault h = Takes-raise fault h
Takes-check false fault h = Takes-pure tt

duplicate_chunk_fault : duplicate_chunk ≢ out_of_fuel
duplicate_chunk_fault e = cc

invalid_padding_fault : invalid_padding ≢ out_of_fuel
invalid_padding_fault e = cc

not_riff_fault : not_riff ≢ out_of_fuel
not_riff_fault e = cc

invalid_riff_size_fault : invalid_riff_size ≢ out_of_fuel
invalid_riff_size_fault e = cc

duplicate_node_fault : duplicate_node ≢ out_of_fuel
duplicate_node_fault e = cc

trailing_command_fault : trailing_command ≢ out_of_fuel
trailing_command_fault e = cc

ruleset faults =
    (duplicate_chunk_fault, invalid_padding_fault, not_riff_fault, invalid_riff_size_fault)

Takes-take_any : (n : ℕ) → Takes 0 (take_bytes n)
Takes-take_any n = Takes-take_bytes 0 n (omega arith)

Takes-take_four : Takes 1 (take_bytes 4)
Takes-take_four = Takes-take_bytes 1 4 (omega arith)

ruleset block_rules = (takes_rules, Takes-check, Takes-take_any)

Takes-padding : (size : ℕ) → Takes 0 (padding size)
unfolding padding
Takes-padding size = search (Takes-if, block_rules, faults)

Takes-chunk_step : (chunks : Chunks) → Takes 1 (chunk_step chunks)
unfolding chunk_step
Takes-chunk_step chunks = search (block_rules, faults, Takes-take_four, Takes-padding) depth 14

Takes-read_form : (size : ℕ) → Takes 0 (read_form size)
unfolding read_form
Takes-read_form size = search (block_rules, faults) depth 12

Takes-read_header : Takes 0 read_header
unfolding read_header
Takes-read_header = search (block_rules, faults, Takes-read_form) depth 16

Takes-include_header : (strings : List Text) → Takes 1 (include_header strings)
unfolding include_header
Takes-include_header strings = search block_rules depth 8

Takes-symbol : (strings : List Text) → Takes 1 (symbol strings)
unfolding symbol
Takes-symbol strings = search (block_rules, Takes-include_header) depth 40 fits 100000

Takes-ref : (strings : List Text) (id : Text) → Takes 1 (ref strings id)
unfolding ref
Takes-ref strings id = search block_rules depth 10

Takes-relation : Takes 1 relation
unfolding relation
Takes-relation = search block_rules depth 10

Takes-symbols_step : (strings : List Text) (s : List Symbol) → Takes 1 (symbols_step strings s)
unfolding symbols_step
Takes-symbols_step strings s = search (block_rules, Takes-symbol)

Takes-refs_step : (strings : List Text) (s : List Ref) → Takes 1 (refs_step strings s)
unfolding refs_step
Takes-refs_step strings s = search (block_rules, Takes-ref) depth 10

Takes-relations_step : (s : List Relation) → Takes 1 (relations_step s)
unfolding relations_step
Takes-relations_step s = search (block_rules, Takes-relation)

Takes-sources_step : (strings : List Text) (s : Sources) → Takes 1 (sources_step strings s)
unfolding sources_step
Takes-sources_step strings s = search (block_rules, duplicate_node_fault) depth 14

Takes-end_command :
    (directory : Text) (arguments : List Text) → Takes 0 (end_command directory arguments)
unfolding end_command
Takes-end_command directory arguments = search (block_rules, trailing_command_fault) depth 8

Takes-command : (strings : List Text) → Takes 0 (command strings)
unfolding command command_arguments
Takes-command strings = search (block_rules, Takes-end_command) depth 12

-- A part of `decode_shard` that raises, or returns.
record Ends {A : Type 0} (r : Result Fault A) : Type 0 where
  at : r ≢ err out_of_fuel

module _ {A : Type 0} where
  Ends-ok : (a : A) → Ends (ok a)
  Ends-ok a = record { at = λ e. cc }

  Ends-err : (e : Fault) → e ≢ out_of_fuel → Ends {A = A} (err e)
  Ends-err e h = record { at = λ p. h (fault_of p) }
    where
      fault_of : {e d : Fault} → ◌≡◌ {A = Result Fault A} (err e) (err d) → e ≡ d
      fault_of p = cc

module _ {A B : Type 0} where
  Ends-bind :
      (m : Result Fault A) (f : A → Result Fault B)
      → Ends m
      → ((a : A) → Ends (f a))
      → Ends (m >>= f)
  Ends-bind (ok a) f em ef = ef a
  Ends-bind (err e) f em ef = Ends-err e (λ p. em.at (ap err p))

  Ends-run :
      (limit : ℕ) (r : Result Fault (A × Bytes)) (f : A × Bytes → Result Fault B)
      → Within limit r
      → ((p : A × Bytes) → Ends (f p))
      → Ends (elim r [ err e ↦ err e | ok p ↦ f p ])
  Ends-run limit (ok p) f w ef = ef p
  Ends-run limit (err e) f w ef = Ends-err e w

Ends-loop :
    {S : Type 0} (body : List S → Reader (List S)) (raw : Bytes)
    → ((s : List S) → Takes 1 (body s))
    → Ends (run_loop body raw)
Ends-loop body raw t =
    Ends-run 0 (while_remaining body (length raw) [] raw) (λ p. ok p.0)
      (while_remaining-Within body t (length raw) [] raw (omega arith)) λ p. Ends-ok p.0

Ends-check_chunks : (chunks : Chunks) → Ends (check_chunks chunks)
unfolding check_chunks
Ends-check_chunks chunks = record { at = λ e. ground arith }

Ends-read_chunks : (raw : Bytes) → Ends (read_chunks raw)
unfolding read_chunks
Ends-read_chunks raw =
    Ends-run (length raw) (read_header raw) _ (Takes-read_header.at raw (length raw) (omega arith))
      λ p.
        Ends-run 0 (while_remaining chunk_step (length p.1) [] p.1) _
          (while_remaining-Within chunk_step Takes-chunk_step (length p.1) [] p.1 (omega arith))
          λ q. Ends-check_chunks q.0

Ends-inflate : (z : Zlib) (size : ℕ) (raw : Bytes) → Ends (inflate z size raw)
unfolding inflate
Ends-inflate z size raw = record { at = λ e. ground arith }

Ends-read_strings : (z : Zlib) (raw : Bytes) → Ends (read_strings z raw)
unfolding read_strings table_of
Ends-read_strings z raw =
    Ends-run (length raw) (u32 raw) _ (Takes-u32.at raw (length raw) (omega arith))
      λ p. record { at = λ e. ground (arith, (Ends-inflate z p.0 p.1).at) }

Ends-chunk : (tag : Bytes) (chunks : Chunks) → Ends (chunk tag chunks)
Ends-chunk tag chunks = record { at = λ e. ground arith }

Ends-read_command : (strings : List Text) (o : Option Bytes) → Ends (read_command strings o)
Ends-read_command strings none = Ends-ok none
Ends-read_command strings (some raw) =
    Ends-run (length raw) (command strings raw) (λ p. ok (some p.0))
      ((Takes-command strings).at raw (length raw) (omega arith)) λ p. Ends-ok _

ruleset ends_rules = (
  Ends-ok, Ends-bind, Ends-loop, Ends-read_chunks, Ends-read_strings, Ends-chunk, Ends-read_command,
  Takes-symbols_step, Takes-refs_step, Takes-relations_step, Takes-sources_step,
)

-- Every run of `decode_shard` ends: it returns a shard or raises one of the module's `ValueError`s,
-- and none of its loops is cut short by the number of rounds that the model gives it.
pub decode_shard_ends : (z : Zlib) (raw : Bytes) → decode_shard z raw ≢ err out_of_fuel
unfolding decode_shard decode_chunks
decode_shard_ends z raw = ends.at
  where
    ends : Ends (decode_shard z raw)
    ends = search ends_rules depth 20 fits 10000
