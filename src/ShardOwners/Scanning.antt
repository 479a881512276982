-- ===== src/ShardOwners/Scanning.antt =====
-- The loop of `read_owner` on a well-formed container: it keeps the metadata chunks and reads no other
-- payload.
use nvim_dot_files.Prelude.{
  ℕ, ◌+◌, ◌-◌, ◌%◌, ◌^◌, ◌≤◌, ◌<◌, ◌≡◌, refl, ap, subst, ◌∙◌, true, false, List, [], ◌∷◌, ◌++◌,
  append_assoc, bit_and, length, length-append, take, drop, take-append, drop-append, ltb, le→ltb,
  if◌then◌else◌, ◌==◌, Eq-number, Eq-list, Eq-option, Bool-cases, inl, inr, arith,
}
use native.Mathlib.Decide.{ℕ_discrete}
use nvim_dot_files.Prelude.Bits.{bit_and_one}
use nvim_dot_files.Prelude.Result.{ok}
use nvim_dot_files.IndexGraph.Reader.{Bytes}
use nvim_dot_files.IndexGraph.Reader.Inverse.{pack32, length-pack32, little_endian-pack32}
use nvim_dot_files.IndexGraph.Riff.{member, allowed}
use nvim_dot_files.IndexGraph.Riff.RoundTrip.{pad_of, put_chunk, nat_eq_self}
use nvim_dot_files.ShardOwners.{
  Stream, Action, return, and_then, take_stream, seek, pad_stream, metadata, max_metadata_chunk,
  Scan, payload_step, head_step, fail, invalid_padding, scan_step,
}

abbrev pub at_ : ℕ → Bytes → ℕ → Stream
at_ tell rest bytes_read = record { tell = tell; rest = rest; bytes_read = bytes_read }

pub and_then_ok :
    {A B : Type 0} (m : Action A) (f : A → Action B) (s : Stream) {a : A} {s' : Stream}
    → m s ≡ (ok a, s')
    → and_then m f s ≡ f a s'
and_then_ok m f s e = rw e refl

pub take_stream-append :
    (xs ys : Bytes) (n tell b : ℕ)
    → length xs ≡ n
    → take_stream n (at_ tell (xs ++ ys) b) ≡ (ok xs, at_ (tell + n) ys (b + n))
unfolding take_stream
take_stream-append xs ys n tell b e =
    rw (← e) (rw (take-append xs ys, drop-append xs ys) (rw (nat_eq_self (length xs)) refl))

-- Bytes of padding behind a payload.
abbrev pad_size : ℕ → ℕ
pad_size size = bit_and size 1

pub length-pad_of : (size : ℕ) → length (pad_of size) ≡ pad_size size
unfolding pad_of
length-pad_of size = ground (arith, bit_and_one size)

pad_stream-pad_of :
    (size tell b : ℕ) (rest : Bytes)
    → pad_stream size (at_ tell (pad_of size ++ rest) b)
      ≡ (ok tt, at_ (tell + pad_size size) rest (b + pad_size size))
unfolding pad_stream pad_of
pad_stream-pad_of size tell b rest = elim (ℕ_discrete (size % 2) 0) [
  | yes even ↦ rw (bit_and_one size, even) (ground arith)
  | no odd ↦
      let one : size % 2 ≡ 1 = omega arith in
      rw (bit_and_one size, one)
        (and_then_ok (take_stream 1)
          (λ pad. if pad == 0 ∷ [] then return tt else fail invalid_padding) (at_ tell (0 ∷ rest) b)
          (take_stream-append (0 ∷ []) rest 1 tell b refl))
]

-- How much of a chunk is read: its head and its padding, and its payload if it is metadata.
abbrev pub read_of : Bytes × Bytes → ℕ
read_of (tag, payload) =
    8 + (if member tag metadata then length payload else 0) + pad_size (length payload)

abbrev pub size_of : Bytes → ℕ
size_of payload = 8 + (length payload + pad_size (length payload))

-- What a chunk adds to a scan.
abbrev pub scanned : Scan → Bytes × Bytes → Scan
scanned scan (tag, payload) = record {
  chunks = if member tag metadata then scan.chunks ++ (tag, payload) ∷ [] else scan.chunks;
  seen = tag ∷ scan.seen;
}

abbrev pub IsSmall : Bytes × Bytes → Type 0
IsSmall (tag, payload) = member tag metadata ≡ true → length payload ≤ max_metadata_chunk

seek-append :
    (xs ys : Bytes) (tell b : ℕ)
    → seek (length xs) (at_ tell (xs ++ ys) b) ≡ (ok tt, at_ (tell + length xs) ys b)
unfolding seek
seek-append xs ys tell b = rw (drop-append xs ys) refl

payload_lem :
    (tag payload rest : Bytes) (scan : Scan) (tell b : ℕ)
    → IsSmall (tag, payload)
    → payload_step tag
        (length payload)
        scan
        (at_ tell (payload ++ (pad_of (length payload) ++ rest)) b)
      ≡ (
        ok (scanned scan (tag, payload)),
        at_
            (tell + length payload + pad_size (length payload))
            rest
            (b + (if member tag metadata then length payload else 0) + pad_size (length payload)),
      )
unfolding payload_step
payload_lem tag payload rest scan tell b small =
    let size : ℕ = length payload in
    let seen : List Bytes = tag ∷ scan.seen in
    elim (Bool-cases (member tag metadata)) [
      | inl meta ↦ rw meta (
          rw (le→ltb max_metadata_chunk size (small meta)) (
            let kept : Action Scan =
              return (record { chunks = scan.chunks ++ (tag, payload) ∷ []; seen = seen }) in
            and_then_ok (take_stream size)
              (λ raw.
                and_then (pad_stream size)
                  λ _. return (record { chunks = scan.chunks ++ (tag, raw) ∷ []; seen = seen }))
              (at_ tell (payload ++ (pad_of size ++ rest)) b)
              (take_stream-append payload (pad_of size ++ rest) size tell b refl)
            ∙ and_then_ok (pad_stream size) (λ _. kept)
                (at_ (tell + size) (pad_of size ++ rest) (b + size))
                (pad_stream-pad_of size (tell + size) (b + size) rest)))
      | inr other ↦ rw other (
          let kept : Action Scan = return (record scan { seen = seen }) in
          and_then_ok (seek size) (λ _. and_then (pad_stream size) λ _. kept)
            (at_ tell (payload ++ (pad_of size ++ rest)) b)
            (seek-append payload (pad_of size ++ rest) tell b)
          ∙ and_then_ok (pad_stream size) (λ _. kept) (at_ (tell + size) (pad_of size ++ rest) b)
              (pad_stream-pad_of size (tell + size) b rest)
          ∙ ground arith)
    ]

head_step-append :
    (total : ℕ) (scan : Scan) (tag payload rest : Bytes) (tell b : ℕ)
    → length tag ≡ 4
    → length payload < 2 ^ 32
    → member tag allowed ≡ true
    → member tag scan.seen ≡ false
    → tell + (length payload + pad_size (length payload)) ≤ total
    → head_step total scan (tag ++ pack32 (length payload)) (at_ tell rest b)
      ≡ payload_step tag (length payload) scan (at_ tell rest b)
unfolding head_step
head_step-append total scan tag payload rest tell b four small known new room =
    let size : ℕ = length payload in
    let tag_there : take 4 (tag ++ pack32 size) ≡ tag =
      subst (λ n. take n (tag ++ pack32 size) ≡ tag) four (take-append tag (pack32 size)) in
    let size_there : drop 4 (tag ++ pack32 size) ≡ pack32 size =
      subst (λ n. drop n (tag ++ pack32 size) ≡ pack32 size) four (drop-append tag (pack32 size)) in
    rw (tag_there, size_there, little_endian-pack32 size small, known, new)
      (rw (le→ltb (total - tell) (size + pad_size size) (omega arith)) refl)

pub scan_step-put_chunk :
    (total : ℕ) (scan : Scan) (tag payload rest : Bytes) (tell b : ℕ)
    → length tag ≡ 4
    → length payload < 2 ^ 32
    → member tag allowed ≡ true
    → member tag scan.seen ≡ false
    → IsSmall (tag, payload)
    → tell + size_of payload ≤ total
    → scan_step total scan (at_ tell (put_chunk (tag, payload) ++ rest) b) ≡ (
      ok (scanned scan (tag, payload)),
      at_ (tell + size_of payload) rest (b + read_of (tag, payload)),
    )
unfolding scan_step put_chunk
scan_step-put_chunk total scan tag payload rest tell b four small known new fits room =
    let size : ℕ = length payload in
    let after : Bytes = payload ++ (pad_of size ++ rest) in
    let head : Bytes = tag ++ pack32 size in
    let split : tag ++ (pack32 size ++ (payload ++ pad_of size)) ++ rest ≡ head ++ after = cc (
      append_assoc tag (pack32 size ++ (payload ++ pad_of size)) rest,
      append_assoc (pack32 size) (payload ++ pad_of size) rest,
      append_assoc payload (pad_of size) rest,
      append_assoc tag (pack32 size) after,
    ) in
    let eight : length head ≡ 8 =
      omega (arith, length-append tag (pack32 size), length-pack32 size) in
    let roomy : ltb (total - tell) 8 ≡ false = le→ltb (total - tell) 8 (omega arith) in
    rw roomy (
      ap (λ (t : Bytes). and_then (take_stream 8) (head_step total scan) (at_ tell t b)) split
      ∙ and_then_ok (take_stream 8) (head_step total scan) (at_ tell (head ++ after) b)
          (take_stream-append head after 8 tell b eight)
      ∙ head_step-append total scan tag payload after (tell + 8) (b + 8) four small known new
          (omega arith)
      ∙ payload_lem tag payload rest scan (tell + 8) (b + 8) fits
      ∙ ground arith)
