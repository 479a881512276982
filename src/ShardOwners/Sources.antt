-- ===== src/ShardOwners/Sources.antt =====
-- The source nodes: the loop of `read_owner` and that of `decode_shard` on one chunk.
use nvim_dot_files.Prelude.{
  ℕ, zero, suc, ◌/◌, ◌%◌, ◌≡◌, ◌≢◌, refl, sym, ap, subst, ◌∙◌, false, ◌||◌, List, [], ◌∷◌, ◌++◌,
  map, append-nil, append_assoc, if◌then◌else◌, ◌==◌, Eq-number, Eq-list, beq_eq, beq_ne,
  Bool-cases, inl, inr, All, All-append_left, All-append_right, arith,
}
use nvim_dot_files.Prelude.Result.{ok}
use nvim_dot_files.IndexGraph.Reader.{
  Bytes, Text, Reader, byte, string, take_bytes, hex, hex_digit, count, repeat, while_remaining,
}
use nvim_dot_files.IndexGraph.Reader.Inverse.{bind_ok, bind_inv, bind_elim, loop_step}
use nvim_dot_files.IndexGraph.Shard.{Sources, SourceNode, sources_step, has_uri}
use nvim_dot_files.IndexGraph.Canonical.{own_nodes, zero_digest}
use nvim_dot_files.ShardOwners.{Owners, owner_step, seen_uri, zero_bytes}

digits_zero :
    (a b : ℕ)
    → b ≡ 0
    → hex_digit (a / 16) ≡ hex_digit (b / 16)
    → hex_digit (a % 16) ≡ hex_digit (b % 16)
    → a ≡ 0
digits_zero a b z high low = ground arith

-- Eight bytes are zero exactly when their hexadecimal text is.
zeros-hex : (xs ys : Bytes) → All (λ y. y ≡ 0) ys → hex xs ≡ hex ys → xs ≡ ys
unfolding hex
zeros-hex [] [] h e = refl
zeros-hex [] (y ∷ ys) h e = cc
zeros-hex (x ∷ xs) [] h e = cc
zeros-hex (x ∷ xs) (y ∷ ys) (z, h) e =
    cc (digits_zero x y z (cc e) (cc e), z, zeros-hex xs ys h (cc e))

zero_bytes-zeros : All (λ (y : ℕ). y ≡ 0) zero_bytes
zero_bytes-zeros = (refl, (refl, (refl, (refl, (refl, (refl, (refl, (refl, tt))))))))

digest_test : (digest : Bytes) → (digest == zero_bytes) ≡ (hex digest == zero_digest)
digest_test digest = elim (Bool-cases (digest == zero_bytes)) [
  | inl same ↦ rw same (rw (beq_eq digest zero_bytes same) (unfold hex in refl))
  | inr differ ↦ rw differ (elim (Bool-cases (hex digest == zero_digest)) [
    | inl zeros ↦ absurd (
        beq_ne digest zero_bytes differ (
          zeros-hex digest zero_bytes zero_bytes-zeros
            (unfold hex in beq_eq (hex digest) zero_digest zeros)))
    | inr other ↦ sym other
  ])
]

-- What one round of `decode_shard` reads, `read_owner` reads too.
record Step (strings : List Text) (sources : Sources) (bs : Bytes) (sources' : Sources)
    (rest : Bytes) : Type 0 where
  uri : Text
  node : SourceNode
  appended : sources' ≡ sources ++ (uri, node) ∷ []
  new : has_uri uri sources ≡ false
  owner :
      (o : Owners)
      → seen_uri uri o.uris ≡ false
      → (uri == []) ≡ false
      → owner_step strings o bs
        ≡ ok (
          record {
            uris = uri ∷ o.uris;
            own = if node.digest == zero_digest then o.own else o.own ++ uri ∷ [];
          },
          rest,
        )

module _ (strings : List Text) (o : Owners) (bs : Bytes) {flags n : ℕ} {uri : Text} {digest : Bytes}
    {includes : List Text} {r₁ r₂ r₃ r₄ r₅ : Bytes} where
  owner_step-ok :
      byte bs ≡ ok (flags, r₁)
      → string strings r₁ ≡ ok (uri, r₂)
      → take_bytes 8 r₂ ≡ ok (digest, r₃)
      → count r₃ ≡ ok (n, r₄)
      → repeat n (string strings) r₄ ≡ ok (includes, r₅)
      → (uri == []) ≡ false
      → seen_uri uri o.uris ≡ false
      → owner_step strings o bs
        ≡ ok (
          record {
            uris = uri ∷ o.uris;
            own = if digest == zero_bytes then o.own else o.own ++ uri ∷ [];
          },
          r₅,
        )
  unfolding owner_step
  owner_step-ok p₁ p₂ p₃ p₄ p₅ some new =
      bind_ok byte _ bs p₁
      ∙ bind_ok (string strings) _ r₁ p₂
      ∙ bind_ok (take_bytes 8) _ r₂ p₃
      ∙ rw (some, new) (bind_ok count _ r₃ p₄ ∙ bind_ok (repeat n (string strings)) _ r₄ p₅)

sources_step_inv :
    (strings : List Text) (sources sources' : Sources) (bs rest : Bytes)
    → sources_step strings sources bs ≡ ok (sources', rest)
    → Step strings sources bs sources' rest
unfolding sources_step
sources_step_inv strings sources sources' bs rest e = bind_elim byte _ bs e λ flags r₁ p₁ e₁.
    bind_elim (string strings) _ r₁ e₁ λ uri r₂ p₂ e₂.
      bind_elim (take_bytes 8) _ r₂ e₂ λ digest r₃ p₃ e₃. bind_elim count _ r₃ e₃ λ n r₄ p₄ e₄.
        bind_elim (repeat n (string strings)) _ r₄ e₄ λ includes r₅ p₅ e₅.
          elim (Bool-cases (has_uri uri sources)) [
            | inl old ↦ cc (rw old at e₅)
            | inr new ↦
                let made : sources
                      ++ (
                        uri,
                        record { flags = flags; digest = hex digest; direct_includes = includes },
                      )
                        ∷ []
                    ≡ sources' =
                  cc (rw new at e₅) in
                let last : r₅ ≡ rest = cc (rw new at e₅) in
                record {
                  uri = uri;
                  node = record { flags = flags; digest = hex digest; direct_includes = includes };
                  appended = sym made;
                  new = new;
                  owner = λ o fresh some.
                      rw (← digest_test digest, ← last)
                        (owner_step-ok strings o bs p₁ p₂ p₃ p₄ p₅ some fresh);
                }
          ]

loop_inv :
    {S : Type 0} (body : S → Reader S) (fuel : ℕ) (s : S) (b : ℕ) (bs : Bytes) {t : S}
    {rest : Bytes}
    → while_remaining body (suc fuel) s (b ∷ bs) ≡ ok (t, rest)
    → (s' : S) × (left : Bytes) × (body s (b ∷ bs) ≡ ok (s', left))
      × (while_remaining body fuel s' left ≡ ok (t, rest))
unfolding while_remaining
loop_inv body fuel s b bs e = bind_inv (body s) (λ s'. while_remaining body fuel s') (b ∷ bs) e

loop_prefix :
    (strings : List Text) (fuel : ℕ) (sources result : Sources) (bs rest : Bytes)
    → while_remaining (sources_step strings) fuel sources bs ≡ ok (result, rest)
    → (more : Sources) × (result ≡ sources ++ more)
unfolding while_remaining
loop_prefix strings fuel sources result [] rest e = ([], rw (append-nil sources) (cc e))
loop_prefix strings zero sources result (b ∷ bs) rest e = cc e
loop_prefix strings (suc fuel) sources result (b ∷ bs) rest e =
    let (sources', left, here, later) = loop_inv (sources_step strings) fuel sources b bs e in
    let step = sources_step_inv strings sources sources' (b ∷ bs) left here in
    let (more, made) = loop_prefix strings fuel sources' result left rest later in
    (
      (step.uri, step.node) ∷ more,
      made
          ∙ ap (λ (t : Sources). t ++ more) step.appended
          ∙ append_assoc sources ((step.uri, step.node) ∷ []) more,
    )

abbrev pub uris_of : Sources → List Text
uris_of sources = map (λ (s : Text × SourceNode). s.0) sources

own_nodes-append :
    (sources : Sources) (uri : Text) (node : SourceNode)
    → uris_of (own_nodes (sources ++ (uri, node) ∷ [])) ≡ (
        if node.digest == zero_digest
        then uris_of (own_nodes sources)
        else uris_of (own_nodes sources) ++ uri ∷ [])
unfolding own_nodes
own_nodes-append [] uri node = ground arith
own_nodes-append ((u, n) ∷ sources) uri node = ground (arith, own_nodes-append sources uri node)

has_uri-append :
    (u : Text) (sources : Sources) (uri : Text) (node : SourceNode)
    → has_uri u (sources ++ (uri, node) ∷ []) ≡ (uri == u || has_uri u sources)
unfolding has_uri
has_uri-append u [] uri node = ground arith
has_uri-append u ((v, n) ∷ sources) uri node = ground (arith, has_uri-append u sources uri node)

-- The state of one loop beside that of the other.
pub record Follows (sources : Sources) (o : Owners) : Type 0 where
  pub seen : (u : Text) → seen_uri u o.uris ≡ has_uri u sources
  pub own : o.own ≡ uris_of (own_nodes sources)

Follows-step :
    (sources : Sources) (o : Owners) (uri : Text) (node : SourceNode)
    → Follows sources o
    → Follows (sources ++ (uri, node) ∷ []) (record {
      uris = uri ∷ o.uris;
      own = if node.digest == zero_digest then o.own else o.own ++ uri ∷ [];
    })
unfolding seen_uri
Follows-step sources o uri node f = record {
  seen = λ u. rw (has_uri-append u sources uri node, ← f.seen u) refl;
  own = rw (own_nodes-append sources uri node, ← f.own) refl;
}

not_empty : (uri : Text) → uri ≢ [] → (uri == []) ≡ false
not_empty [] h = absurd (h refl)
not_empty (c ∷ uri) h = refl

pub owners_loop :
    (strings : List Text) (fuel : ℕ) (sources result : Sources) (o : Owners) (bs rest : Bytes)
    → Follows sources o
    → All (λ (s : Text × SourceNode). s.0 ≢ []) result
    → while_remaining (sources_step strings) fuel sources bs ≡ ok (result, rest)
    → (o' : Owners) × (while_remaining (owner_step strings) fuel o bs ≡ ok (o', rest))
      × Follows result o'
unfolding while_remaining
owners_loop strings fuel sources result o [] rest f named e =
    (o, cc e, subst (λ (t : Sources). Follows t o) (cc e) f)
owners_loop strings zero sources result o (b ∷ bs) rest f named e = cc e
owners_loop strings (suc fuel) sources result o (b ∷ bs) rest f named e =
    let (sources', left, here, later) = loop_inv (sources_step strings) fuel sources b bs e in
    let step = sources_step_inv strings sources sources' (b ∷ bs) left here in
    let (more, made) = loop_prefix strings fuel sources' result left rest later in
    let known : All (λ (s : Text × SourceNode). s.0 ≢ [])
        ((sources ++ (step.uri, step.node) ∷ []) ++ more) =
      subst (All (λ (s : Text × SourceNode). s.0 ≢ []))
        (made ∙ ap (λ (t : Sources). t ++ more) step.appended) named in
    let some : step.uri ≢ [] =
      (All-append_right (λ (s : Text × SourceNode). s.0 ≢ []) sources _
        (All-append_left (λ (s : Text × SourceNode). s.0 ≢ [])
          (sources ++ (step.uri, step.node) ∷ []) more known)).0 in
    let o₁ : Owners = record {
      uris = step.uri ∷ o.uris;
      own = if step.node.digest == zero_digest then o.own else o.own ++ step.uri ∷ [];
    } in
    let (o', run, f') =
      owners_loop strings fuel sources' result o₁ left rest
        (subst (λ (t : Sources). Follows t o₁) (sym step.appended)
          (Follows-step sources o step.uri step.node f))
        named later in
    (
      o',
      loop_step (owner_step strings) fuel o o₁ (b ∷ bs) left (omega arith)
            (step.owner o (f.seen step.uri ∙ step.new) (not_empty step.uri some))
          ∙ run,
      f',
    )
