-- ===== src/IndexGraph/Riff/Exact.antt =====
-- The RIFF container, the other direction: what a successful `_chunks` says of the bytes.
use nvim_dot_files.Prelude.{
  ℕ, zero, suc, ◌%◌, ◌^◌, ◌<◌, ◌≡◌, ◌↔◌, refl, sym, ap, subst, ◌∙◌, Bool, true, false, not, [], ◌∷◌,
  ◌++◌, append-nil, append_assoc, some, length, nat_eq, nat_eq_iff, ◌==◌, Eq-number, Eq-list,
  Eq-option, beq_eq, All, All-append_right, Bool-cases, inl, inr, arith,
}
use nvim_dot_files.Prelude.Result.{Result, ok, err}
use nvim_dot_files.Prelude.Bits.{bit_and_one}
use nvim_dot_files.IndexGraph.Reader.{
  Bytes, Fault, take_bytes, u32, remaining, while_remaining, not_riff, invalid_riff_size,
  duplicate_chunk, invalid_padding,
}
use nvim_dot_files.IndexGraph.Reader.Inverse.{bind_elim, take_bytes_inv, pack32, u32_inv}
use nvim_dot_files.IndexGraph.Utf8.Lossless.{IsByte}
use nvim_dot_files.IndexGraph.Riff.{
  Chunks, find, has, keys_allowed, has_all, allowed, required, meta_tag, packed_version, riff_tag,
  cdix_tag, check, padding, chunk_step, read_form, read_header, check_chunks, read_chunks,
}
use nvim_dot_files.IndexGraph.Riff.RoundTrip.{
  pad_of, put_chunk, put_chunks, write_riff, Fresh, IsContainer, read_chunks-write,
}

check_inv :
    (b : Bool) (fault : Fault) (bs rest : Bytes) {u : Unit {0}}
    → check b fault bs ≡ ok (u, rest)
    → (b ≡ false) × (bs ≡ rest)
check_inv true fault bs rest e = cc
check_inv false fault bs rest e = (refl, cc e)

not-false : (b : Bool) → not b ≡ false → b ≡ true
not-false true h = refl
not-false false h = cc

pad_inv :
    (size : ℕ) (bs rest : Bytes) {u : Unit {0}}
    → padding size bs ≡ ok (u, rest)
    → bs ≡ pad_of size ++ rest
unfolding padding pad_of
pad_inv size bs rest e = elim (Bool-cases (nat_eq (size % 2) 0)) [
  | inl even ↦ rw even (cc (rw (bit_and_one size) at e, even))
  | inr odd ↦
      bind_elim (take_bytes 1) (λ pad. check (not (pad == 0 ∷ [])) invalid_padding) bs
        (rw odd at (rw (bit_and_one size) at e))
        λ pad left e₁ f₁.
          let (whole, one) = take_bytes_inv 1 bs pad left e₁ in
          let (zero_byte, same) = check_inv (not (pad == 0 ∷ [])) invalid_padding left rest f₁ in
          let exact : pad ≡ 0 ∷ [] = beq_eq pad (0 ∷ []) (not-false (pad == 0 ∷ []) zero_byte) in
          rw odd (cc (whole, exact, same))
]

chunk_step_inv :
    (old chunks : Chunks) (bs rest : Bytes)
    → All IsByte bs
    → chunk_step old bs ≡ ok (chunks, rest)
    → (tag : Bytes) × (payload : Bytes) × (bs ≡ put_chunk (tag, payload) ++ rest)
      × (chunks ≡ old ++ (tag, payload) ∷ [])
      × ((length tag ≡ 4) × (length payload < 2 ^ 32) × (has tag old ≡ false))
unfolding chunk_step put_chunk
chunk_step_inv old chunks bs rest bytes e = bind_elim (take_bytes 4) _ bs e λ tag bs₁ e₁ f₁.
    bind_elim u32 _ bs₁ f₁ λ size bs₂ e₂ f₂.
      bind_elim (check (has tag old) duplicate_chunk) _ bs₂ f₂ λ _ bs₃ e₃ f₃.
        bind_elim (take_bytes size) _ bs₃ f₃ λ payload bs₄ e₄ f₄.
          bind_elim (padding size) _ bs₄ f₄ λ _ bs₅ e₅ f₅.
            let (whole₁, four) = take_bytes_inv 4 bs tag bs₁ e₁ in
            let (whole₂, small) =
              u32_inv bs₁ bs₂ (All-append_right IsByte tag bs₁ (rw whole₁ at bytes)) e₂ in
            let (new, same) = check_inv (has tag old) duplicate_chunk bs₂ bs₃ e₃ in
            let (whole₄, sized) = take_bytes_inv size bs₃ payload bs₄ e₄ in
            let padded = pad_inv size bs₄ bs₅ e₅ in
            let made : old ++ (tag, payload) ∷ [] ≡ chunks = cc f₅ in
            let ending : bs₅ ≡ rest = cc f₅ in
            let layout : tag ++ (pack32 size ++ (payload ++ (pad_of size ++ rest)))
                ≡ (tag ++ (pack32 size ++ (payload ++ pad_of size))) ++ rest =
              simp append_assoc in
            (
              tag,
              payload,
              rw sized (cc (whole₁, whole₂, same, whole₄, padded, ending, layout)),
              sym made,
              (four, rw sized small, new),
            )

loop_inv :
    (fuel : ℕ) (old chunks : Chunks) (bs rest : Bytes)
    → All IsByte bs
    → while_remaining chunk_step fuel old bs ≡ ok (chunks, rest)
    → (new : Chunks) × (chunks ≡ old ++ new) × (bs ≡ put_chunks new) × Fresh old new
unfolding while_remaining put_chunks
loop_inv fuel old chunks [] rest bytes e = ([], cc (append-nil old, e), refl, tt)
loop_inv zero old chunks (b ∷ bs) rest bytes e = cc
loop_inv (suc fuel) old chunks (b ∷ bs) rest bytes e =
    bind_elim (chunk_step old) (while_remaining chunk_step fuel) (b ∷ bs) e λ next left e₁ f₁.
      let (tag, payload, whole, made, fresh) = chunk_step_inv old next (b ∷ bs) left bytes e₁ in
      let left_bytes =
        All-append_right IsByte (put_chunk (tag, payload)) left (subst (All IsByte) whole bytes) in
      let (new, all, laid, fresh_new) = loop_inv fuel next chunks left rest left_bytes f₁ in
      (
        (tag, payload) ∷ new,
        cc (all, made, append_assoc old ((tag, payload) ∷ []) new),
        cc (whole, laid),
        (fresh, rw made at fresh_new),
      )

read_header_inv :
    (raw body : Bytes) {u : Unit {0}}
    → All IsByte raw
    → read_header raw ≡ ok (u, body)
    → (raw ≡ riff_tag ++ (pack32 (length (cdix_tag ++ body)) ++ (cdix_tag ++ body)))
      × (length (cdix_tag ++ body) < 2 ^ 32)
unfolding read_header read_form remaining
read_header_inv raw body bytes e = bind_elim (take_bytes 4) _ raw e λ magic bs₁ e₁ f₁.
    bind_elim (check (not (magic == riff_tag)) not_riff) _ bs₁ f₁ λ _ bs₂ e₂ f₂.
      bind_elim u32 _ bs₂ f₂ λ size bs₃ e₃ f₃.
        bind_elim (check (not (nat_eq size (length bs₃))) invalid_riff_size) _ bs₃ f₃ λ _ bs₄ e₄ f₄.
          bind_elim (take_bytes 4) _ bs₄ f₄ λ form bs₅ e₅ f₅.
            let (whole₁, four) = take_bytes_inv 4 raw magic bs₁ e₁ in
            let (is_riff, same₁) = check_inv _ not_riff bs₁ bs₂ e₂ in
            let riff : magic ≡ riff_tag = beq_eq magic riff_tag (not-false _ is_riff) in
            let left_bytes = All-append_right IsByte magic bs₁ (rw whole₁ at bytes) in
            let (whole₂, small) = u32_inv bs₂ bs₃ (rw same₁ at left_bytes) e₃ in
            let (is_size, same₂) = check_inv _ invalid_riff_size bs₃ bs₄ e₄ in
            let sized : size ≡ length bs₃ =
              (nat_eq_iff size (length bs₃)).0 (not-false _ is_size) in
            let (whole₃, _) = take_bytes_inv 4 bs₄ form bs₅ e₅ in
            let (is_cdix, same₃) =
              check_inv (not (form == cdix_tag)) invalid_riff_size bs₅ body f₅ in
            let cdix : form ≡ cdix_tag = beq_eq form cdix_tag (not-false _ is_cdix) in
            let laid : bs₃ ≡ cdix_tag ++ body = cc (same₂, whole₃, cdix, same₃) in
            let measured : size ≡ length (cdix_tag ++ body) = cc (sized, laid) in
            (cc (whole₁, riff, same₁, whole₂, measured, laid), rw (← measured) small)

check_chunks_inv :
    (chunks got : Chunks)
    → check_chunks chunks ≡ ok got
    → (chunks ≡ got)
      × (keys_allowed allowed chunks ≡ true)
      × (has_all required chunks ≡ true)
      × ((find meta_tag chunks == some packed_version) ≡ true)
unfolding check_chunks
check_chunks_inv chunks got e = ground arith

run_elim :
    {A B P : Type 0} (r : Result Fault (A × Bytes)) (f : A × Bytes → Result Fault B) {b : B}
    → (elim r [ err e ↦ err e | ok p ↦ f p ]) ≡ ok b
    → ((a : A) (rest : Bytes) → r ≡ ok (a, rest) → f (a, rest) ≡ ok b → P)
    → P
run_elim (ok (a, rest)) f e k = k a rest refl e
run_elim (err x) f e k = cc

read_chunks_inv :
    (raw : Bytes) (chunks : Chunks)
    → All IsByte raw
    → read_chunks raw ≡ ok chunks
    → IsContainer chunks
      × (raw ≡ write_riff chunks)
      × (length (cdix_tag ++ put_chunks chunks) < 2 ^ 32)
unfolding read_chunks write_riff
read_chunks_inv raw chunks bytes e = run_elim (read_header raw) _ e λ u body e₁ f₁.
    run_elim (while_remaining chunk_step (length body) [] body) _ f₁ λ got rest e₂ f₂.
      let (whole, small) = read_header_inv raw body bytes e₁ in
      let (same, known, complete, current) = check_chunks_inv got chunks f₂ in
      let body_bytes = All-append_right IsByte cdix_tag body (
        All-append_right IsByte (pack32 (length (cdix_tag ++ body))) (cdix_tag ++ body)
          (All-append_right IsByte riff_tag _ (subst (All IsByte) whole bytes))) in
      let (new, all, laid, fresh) = loop_inv (length body) [] got body rest body_bytes e₂ in
      let made : new ≡ chunks = sym all ∙ same in
      (
        record {
          fresh = subst (Fresh []) made fresh;
          known = rw same at known;
          complete = rw same at complete;
          current = beq_eq (find meta_tag chunks) (some packed_version) (rw same at current);
        },
        cc (whole, laid, made),
        subst (λ (t : Bytes). length (cdix_tag ++ t) < 2 ^ 32) (laid ∙ ap put_chunks made) small,
      )

-- `_chunks` accepts a byte string exactly when it is the RIFF container of some chunks that are
-- `IsContainer`, and it returns just those: it refuses everything else, and no two inputs with one
-- result differ. A body is at most 2^32 - 1 bytes, since its length stands in 32 bits.
pub read_chunks_exact :
    (raw : Bytes) (chunks : Chunks)
    → All IsByte raw
    → (read_chunks raw ≡ ok chunks) ↔ (
        IsContainer chunks
        × (raw ≡ write_riff chunks)
        × (length (cdix_tag ++ put_chunks chunks) < 2 ^ 32))
read_chunks_exact raw chunks bytes = (
  read_chunks_inv raw chunks bytes,
  λ (c, written, small). rw written (read_chunks-write chunks c small),
)
