-- ===== src/IndexGraph/Riff/RoundTrip.antt =====
-- The RIFF container: what `_chunks` accepts is exactly what a writer of such containers writes.
use nvim_dot_files.Prelude.{
  ℕ, zero, suc, ◌+◌, ◌%◌, ◌^◌, ◌≤◌, ◌<◌, ◌≡◌, refl, ap, ◌∙◌, true, false, not, [], ◌∷◌, ◌++◌,
  append-nil, append_assoc, some, length, length-append, nat_eq, if◌then◌else◌, ◌==◌, Eq-number,
  Eq-list, Eq-option, Bool-cases, inl, inr, arith,
}
use nvim_dot_files.Prelude.Result.{ok}
use nvim_dot_files.Prelude.Bits.{bit_and_one}
use nvim_dot_files.IndexGraph.Reader.{
  Bytes, ◌>>=◌, take_bytes, u32, remaining, while_remaining, not_riff,
}
use nvim_dot_files.IndexGraph.Reader.Inverse.{
  bind_ok, loop_step, take_bytes-append, pack32, u32-pack32,
}
use nvim_dot_files.IndexGraph.Riff.{
  Chunks, find, has, keys_allowed, has_all, allowed, required, meta_tag, packed_version, riff_tag,
  cdix_tag, check, padding, chunk_step, read_form, read_header, check_chunks, read_chunks,
}

-- A chunk of odd length is followed by a zero byte.
unfoldable pub pad_of : ℕ → Bytes
pad_of size = if nat_eq (size % 2) 0 then [] else 0 ∷ []

unfoldable pub put_chunk : Bytes × Bytes → Bytes
put_chunk (tag, payload) = tag ++ (pack32 (length payload) ++ (payload ++ pad_of (length payload)))

unfoldable pub put_chunks : Chunks → Bytes
put_chunks [] = []
put_chunks (c ∷ chunks) = put_chunk c ++ put_chunks chunks

-- A container of the chunks, with its header.
unfoldable pub write_riff : Chunks → Bytes
write_riff chunks =
    let body = cdix_tag ++ put_chunks chunks in riff_tag ++ (pack32 (length body) ++ body)

-- The chunks that follow the chunks `old`: tags of four bytes, each new, and 32-bit sizes.
abbrev pub Fresh : Chunks → Chunks → Type 0
Fresh old [] = Unit
Fresh old ((tag, payload) ∷ chunks) =
    ((length tag ≡ 4) × (length payload < 2 ^ 32) × (has tag old ≡ false))
    × Fresh (old ++ (tag, payload) ∷ []) chunks

padding-pad_of : (size : ℕ) (rest : Bytes) → padding size (pad_of size ++ rest) ≡ ok (tt, rest)
unfolding padding pad_of
padding-pad_of size rest = elim (Bool-cases (nat_eq (size % 2) 0)) [
  | inl even ↦ rw (bit_and_one size) (rw even refl)
  | inr odd ↦
      rw (bit_and_one size)
        (rw odd (bind_ok (take_bytes 1) _ (0 ∷ rest) (take_bytes-append 1 (0 ∷ []) rest refl)))
]

chunk_step-put_chunk :
    (old : Chunks) (tag payload rest : Bytes)
    → length tag ≡ 4
    → length payload < 2 ^ 32
    → has tag old ≡ false
    → chunk_step old (put_chunk (tag, payload) ++ rest) ≡ ok (old ++ (tag, payload) ∷ [], rest)
unfolding chunk_step put_chunk
chunk_step-put_chunk old tag payload rest four small new = rw append_assoc (
    bind_ok (take_bytes 4) _ _ (take_bytes-append 4 tag _ four)
    ∙ rw append_assoc (
        bind_ok u32 _ _ (u32-pack32 (length payload) _ small)
        ∙ rw new (
            rw append_assoc (
              bind_ok (take_bytes (length payload)) _ _
                (take_bytes-append (length payload) payload _ refl)
              ∙ bind_ok (padding (length payload)) _ _ (padding-pad_of (length payload) rest)))))

pub nat_eq_self : (n : ℕ) → nat_eq n n ≡ true
nat_eq_self n = ground arith

length-put_chunk : (tag payload : Bytes) → length tag ≡ 4 → 0 < length (put_chunk (tag, payload))
unfolding put_chunk
length-put_chunk tag payload four =
    omega
      (arith, length-append tag (pack32 (length payload) ++ (payload ++ pad_of (length payload))))

loop-put_chunks :
    (fuel : ℕ) (old chunks : Chunks)
    → Fresh old chunks
    → length (put_chunks chunks) ≤ fuel
    → while_remaining chunk_step fuel old (put_chunks chunks) ≡ ok (old ++ chunks, [])
unfolding put_chunks
loop-put_chunks fuel old [] fresh h = rw (append-nil old) (unfold while_remaining in refl)
loop-put_chunks zero old ((tag, payload) ∷ chunks) ((four, small, new), fresh) h = absurd (
    omega (
      arith,
      length-put_chunk tag payload four,
      length-append (put_chunk (tag, payload)) (put_chunks chunks),
    ))
loop-put_chunks (suc fuel) old ((tag, payload) ∷ chunks) ((four, small, new), fresh) h =
    let longer : length (put_chunk (tag, payload) ++ put_chunks chunks)
        ≡ length (put_chunk (tag, payload)) + length (put_chunks chunks) =
      length-append (put_chunk (tag, payload)) (put_chunks chunks) in
    let some_bytes : 0 < length (put_chunk (tag, payload)) = length-put_chunk tag payload four in
    loop_step chunk_step fuel old (old ++ (tag, payload) ∷ []) _ (put_chunks chunks) (omega arith)
      (chunk_step-put_chunk old tag payload (put_chunks chunks) four small new)
    ∙ loop-put_chunks fuel (old ++ (tag, payload) ∷ []) chunks fresh (omega arith)
    ∙ ap (λ (t : Chunks). ok (t, [])) (append_assoc old ((tag, payload) ∷ []) chunks)

read_form-write :
    (body : Bytes) → read_form (length (cdix_tag ++ body)) (cdix_tag ++ body) ≡ ok (tt, body)
unfolding read_form remaining
read_form-write body =
    rw (nat_eq_self (length (cdix_tag ++ body)))
      (bind_ok (take_bytes 4) _ (cdix_tag ++ body) (take_bytes-append 4 cdix_tag body refl))

read_header-write :
    (body : Bytes)
    → length (cdix_tag ++ body) < 2 ^ 32
    → read_header (riff_tag ++ (pack32 (length (cdix_tag ++ body)) ++ (cdix_tag ++ body)))
      ≡ ok (tt, body)
unfolding read_header
read_header-write body small =
    let sized : Bytes = pack32 (length (cdix_tag ++ body)) ++ (cdix_tag ++ body) in
    bind_ok (take_bytes 4)
      (λ magic. check (not (magic == riff_tag)) not_riff >>= λ _. u32 >>= read_form)
      (riff_tag ++ sized) (take_bytes-append 4 riff_tag sized refl)
    ∙ bind_ok u32 read_form sized (u32-pack32 (length (cdix_tag ++ body)) (cdix_tag ++ body) small)
    ∙ read_form-write body

-- The chunks of a container that a reader of shards takes: those of `Fresh`, all known, with every
-- required one, and the version that the module is written for.
pub record IsContainer (chunks : Chunks) : Type 0 where
  pub fresh : Fresh [] chunks
  pub known : keys_allowed allowed chunks ≡ true
  pub complete : has_all required chunks ≡ true
  pub current : find meta_tag chunks ≡ some packed_version

check_chunks-IsContainer :
    (chunks : Chunks)
    → keys_allowed allowed chunks ≡ true
    → has_all required chunks ≡ true
    → find meta_tag chunks ≡ some packed_version
    → check_chunks chunks ≡ ok chunks
unfolding check_chunks
check_chunks-IsContainer chunks known complete current = rw (known, complete, current) refl

-- Reading a container that was written gives its chunks back, in their order.
pub read_chunks-write :
    (chunks : Chunks)
    → IsContainer chunks
    → length (cdix_tag ++ put_chunks chunks) < 2 ^ 32
    → read_chunks (write_riff chunks) ≡ ok chunks
unfolding read_chunks write_riff
read_chunks-write chunks c small =
    rw (read_header-write (put_chunks chunks) small, read_chunks)
      (rw
        (loop-put_chunks (length (put_chunks chunks)) [] chunks c.fresh (omega arith), read_chunks)
        (check_chunks-IsContainer chunks c.known c.complete c.current))
