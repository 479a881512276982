-- ===== src/ShardOwners/Loop.antt =====
-- The loop of `read_owner` over the chunks of a well-formed container.
use nvim_dot_files.Prelude.{
  ℕ, zero, suc, ◌+◌, ◌≤◌, ◌≡◌, refl, sym, ap, subst, ◌∙◌, true, false, ◌||◌, [], ◌∷◌, ◌++◌,
  append-nil, append_assoc, Option, none, some, length, length-append, le→ltb, lt→ltb,
  if◌then◌else◌, ◌==◌, Eq-number, Eq-list, Eq-option, Bool-cases, inl, inr, All, arith,
}
use nvim_dot_files.Prelude.Result.{Result, ok}
use nvim_dot_files.IndexGraph.Reader.{Bytes}
use nvim_dot_files.IndexGraph.Reader.Inverse.{pack32, length-pack32}
use nvim_dot_files.IndexGraph.Riff.{Chunks, find, has, member, allowed, keys_allowed}
use nvim_dot_files.IndexGraph.Riff.RoundTrip.{pad_of, put_chunk, put_chunks, Fresh}
use nvim_dot_files.ShardOwners.{OwnerFault, Stream, metadata, Scan, scan_step, scan_loop}
use nvim_dot_files.ShardOwners.Scanning.{
  at_, IsSmall, read_of, size_of, scanned, scan_step-put_chunk, and_then_ok, length-pad_of,
}
use nvim_dot_files.Prelude.{beq_eq, and_both}

-- What the scan has kept of the chunks `old`: their tags, and the metadata.
pub record Keeps (scan : Scan) (old : Chunks) : Type 0 where
  pub seen : (t : Bytes) → member t scan.seen ≡ has t old
  pub kept : (t : Bytes) → member t metadata ≡ true → find t scan.chunks ≡ find t old

has-append :
    (t : Bytes) (old : Chunks) (u payload : Bytes)
    → has t (old ++ (u, payload) ∷ []) ≡ (u == t || has t old)
unfolding has
has-append t [] u payload = refl
has-append t ((v, q) ∷ old) u payload = ground (arith, has-append t old u payload)

abbrev or_else : Option Bytes → Option Bytes → Option Bytes
or_else none o = o
or_else (some p) o = some p

find-append :
    (t : Bytes) (old : Chunks) (u payload : Bytes)
    → find t (old ++ (u, payload) ∷ [])
      ≡ or_else (find t old) (if u == t then some payload else none)
unfolding find
find-append t [] u payload = refl
find-append t ((v, q) ∷ old) u payload = ground (arith, find-append t old u payload)

or_else-none : (o : Option Bytes) → or_else o none ≡ o
or_else-none none = refl
or_else-none (some p) = refl

find-skip :
    (t : Bytes) (old : Chunks) (u payload : Bytes)
    → (u == t) ≡ false
    → find t (old ++ (u, payload) ∷ []) ≡ find t old
find-skip t old u payload other = find-append t old u payload ∙ rw other (or_else-none (find t old))

scanned-Keeps :
    (scan : Scan) (old : Chunks) (tag payload : Bytes)
    → Keeps scan old
    → Keeps (scanned scan (tag, payload)) (old ++ (tag, payload) ∷ [])
unfolding member
scanned-Keeps scan old tag payload k = record {
  seen = λ t. rw (has-append t old tag payload, ← k.seen t) refl;
  kept = λ t meta. elim (Bool-cases (member tag metadata)) [
    | inl here ↦ rw here (
        rw (find-append t scan.chunks tag payload, find-append t old tag payload, k.kept t meta)
          refl)
    | inr other ↦ rw other (elim (Bool-cases (tag == t)) [
      | inl same ↦
          absurd (ground (arith, ap (λ (u : Bytes). member u metadata) (beq_eq tag t same)))
      | inr differ ↦ k.kept t meta ∙ sym (find-skip t old tag payload differ)
    ])
  ];
}

-- How many bytes a scan of the chunks reads.
abbrev pub reads : Chunks → ℕ
reads [] = 0
reads (c ∷ chunks) = read_of c + reads chunks

length-put_chunk :
    (tag payload : Bytes) → length tag ≡ 4 → length (put_chunk (tag, payload)) ≡ size_of payload
unfolding put_chunk
length-put_chunk tag payload four =
    let size : ℕ = length payload in
    omega (
      arith,
      length-append tag (pack32 size ++ (payload ++ pad_of size)),
      length-append (pack32 size) (payload ++ pad_of size),
      length-append payload (pad_of size),
      length-pad_of size,
      length-pack32 size,
    )

-- The state after the loop.
abbrev pub Scanned : Chunks → ℕ → ℕ → Result OwnerFault Scan × Stream → Type 0
Scanned chunks total read r = (scan : Scan) × (r ≡ (ok scan, at_ total [] read)) × Keeps scan chunks

pub scan_loop-put_chunks :
    (fuel total : ℕ) (scan : Scan) (old chunks : Chunks) (tell b : ℕ)
    → Keeps scan old
    → Fresh old chunks
    → keys_allowed allowed chunks ≡ true
    → All IsSmall chunks
    → tell + length (put_chunks chunks) ≡ total
    → length (put_chunks chunks) ≤ fuel
    → Scanned
        (old ++ chunks)
        total
        (b + reads chunks)
        (scan_loop fuel total scan (at_ tell (put_chunks chunks) b))
unfolding scan_loop put_chunks keys_allowed
scan_loop-put_chunks zero total scan old [] tell b k fresh known fits whole enough =
    (scan, rw (le→ltb tell total (omega arith)) (ground arith), rw (append-nil old) k)
scan_loop-put_chunks (suc fuel) total scan old [] tell b k fresh known fits whole enough =
    (scan, rw (le→ltb tell total (omega arith)) (ground arith), rw (append-nil old) k)
scan_loop-put_chunks zero total scan old ((tag, payload) ∷ chunks) tell b k
      ((four, small, new), fresh) known (fit, fits) whole enough =
    absurd (
      omega (
        arith,
        length-put_chunk tag payload four,
        length-append (put_chunk (tag, payload)) (put_chunks chunks),
      ))
scan_loop-put_chunks (suc fuel) total scan old ((tag, payload) ∷ chunks) tell b k
      ((four, small, new), fresh) known (fit, fits) whole enough =
    let (here, later) = and_both (member tag allowed) (keys_allowed allowed chunks) known in
    let longer = length-append (put_chunk (tag, payload)) (put_chunks chunks) in
    let long = length-put_chunk tag payload four in
    let (scan', e, k') =
      scan_loop-put_chunks fuel total (scanned scan (tag, payload)) (old ++ (tag, payload) ∷ [])
        chunks (tell + size_of payload) (b + read_of (tag, payload))
        (scanned-Keeps scan old tag payload k) fresh later fits (omega arith) (omega arith) in
    (
      scan',
      rw (lt→ltb tell total (omega arith)) (
          and_then_ok (scan_step total scan) (scan_loop fuel total)
            (at_ tell (put_chunk (tag, payload) ++ put_chunks chunks) b)
            (scan_step-put_chunk total scan tag payload (put_chunks chunks) tell b four small here
              (k.seen tag ∙ new) fit (omega arith))
          ∙ e
          ∙ ap (λ (n : ℕ). (ok scan', at_ total [] n)) (omega arith)),
      subst (Keeps scan') (append_assoc old ((tag, payload) ∷ []) chunks) k',
    )
