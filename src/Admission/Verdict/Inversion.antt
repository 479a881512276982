-- ===== src/Admission/Verdict/Inversion.antt =====
-- What a success of each step of `compare_graphs` says.
use nvim_dot_files.Prelude.{
  ℕ, ◌≡◌, ◌⊎◌, refl, All, All-append_left, All-append_right, Bool, true, false, not, List, [], ◌∷◌,
  ◌++◌, some, Bool-cases, Option-cases, inl, inr, Eq-number, Eq-list,
}
use nvim_dot_files.Prelude.Result.{Result, ok, err, >>=-elim-ok}
use nvim_dot_files.Prelude.Sorting.{sorted_by, insert_by}
use nvim_dot_files.Prelude.Sets.{mem, keep_if, same_set, difference}
use nvim_dot_files.Prelude.Dicts.{Dict, at, keys, values}
use nvim_dot_files.IndexGraph.Reader.{Text}
use nvim_dot_files.IndexGraph.Shard.{Ref}
use nvim_dot_files.IndexGraph.Key.{Key, number}
use nvim_dot_files.IndexGraph.Key.Compare.{Eq-key, key_order}
use nvim_dot_files.IndexGraph.Canonical.{Graph}
use nvim_dot_files.Admission.Symbols.{is_full}
use nvim_dot_files.Admission.Collect.{Fault, Collected}
use nvim_dot_files.Admission.Providers.{Urls}
use nvim_dot_files.Admission.Templates.{sorted_texts}
use nvim_dot_files.Admission.Compare.{
  AddedRef, Answer, proven, unproven, raised, Question, Resolvers, Reason, caught, ensure,
  check_sources, check_symbols, evidences, check_unions, refs_at, relations_changed,
}
use nvim_dot_files.Admission.Collect.Keyed.{All-at}
use nvim_dot_files.Admission.Verdict.{add_refs_loop, question_of, prove_refs, prove_all_refs}

Answer-cases :
    (a : Answer) → (a ≡ proven) ⊎ ((a ≡ unproven) ⊎ ((error : Text) × (a ≡ raised error)))
Answer-cases proven = inl refl
Answer-cases unproven = inr (inl refl)
Answer-cases (raised error) = inr (inr (error, refl))

-- What the checks on two unions leave.
pub record Checked (before after : Collected) : Type 0 where
  pub uris : same_set (keys before.sources) (keys after.sources) ≡ true
  pub sources :
      check_sources before.sources after.sources (sorted_texts (keys after.sources)) ≡ ok tt
  pub ids : same_set (keys before.symbols) (keys after.symbols) ≡ true
  pub relations : same_set before.relations after.relations ≡ true
  pub refs : difference (keys before.refs) (keys after.refs) ≡ []

ensure_inv : (b : Bool) (reason : Reason) (u : Unit {0}) → ensure b reason ≡ ok u → b ≡ true
ensure_inv true reason u h = refl
ensure_inv false reason u h = cc

pub caught_inv : {A : Type 0} (r : Result Fault A) (a : A) → caught r ≡ ok a → r ≡ ok a
caught_inv (ok b) a h = cc h
caught_inv (err fault) a h = cc

not_full : {A : Type 0} (xs : List A) → not (is_full xs) ≡ true → xs ≡ []
not_full [] h = refl
not_full (x ∷ xs) h = cc

pub check_unions_inv :
    (urls : Urls) (originals : List Graph) (before after : Collected) (changed : List Text)
    → check_unions urls originals before after ≡ ok changed
    → Checked before after
unfolding check_unions
check_unions_inv urls originals before after changed h =
    >>=-elim-ok (ensure (same_set (keys before.sources) (keys after.sources)) _) _ h λ a p h.
      >>=-elim-ok (check_sources before.sources after.sources (sorted_texts (keys after.sources))) _
        h
        λ b q h.
          >>=-elim-ok (ensure (same_set (keys before.symbols) (keys after.symbols)) _) _ h λ c r h.
            >>=-elim-ok
              (check_symbols urls (evidences originals before after) before.symbols after.symbols
                (sorted_texts (keys after.symbols)))
              _ h
              λ d s h.
                >>=-elim-ok (ensure (same_set before.relations after.relations) relations_changed) _
                  h
                  λ e t h.
                    >>=-elim-ok
                      (ensure (not (is_full (difference (keys before.refs) (keys after.refs)))) _) _
                      h
                      λ f u h. record {
                        uris = ensure_inv _ _ a p;
                        sources = q;
                        ids = ensure_inv _ _ c r;
                        relations = ensure_inv _ _ e t;
                        refs = not_full _ (ensure_inv _ _ f u);
                      }

-- A reference that a callback has proven, as it was asked.
abbrev pub IsProven : Resolvers → AddedRef → Type 0
IsProven resolvers a =
    (resolve : Question → Answer) × (resolvers.original ≡ some resolve)
    × (resolve (question_of a) ≡ proven)

prove_refs_inv :
    (resolvers : Resolvers) (resolve : Question → Answer) (added : List AddedRef) (u : Unit {0})
    → resolvers.original ≡ some resolve
    → prove_refs resolve added ≡ ok u
    → All (IsProven resolvers) added
unfolding prove_refs
prove_refs_inv resolvers resolve [] u e h = tt
prove_refs_inv resolvers resolve (a ∷ added) u e h = elim (Answer-cases (resolve (question_of a))) [
  | inl p ↦ ((resolve, e, p), prove_refs_inv resolvers resolve added u e (rw (p, prove_refs) at h))
  | inr (inl p) ↦ cc (rw (p, prove_refs) at h)
  | inr (inr (x, p)) ↦ cc (rw (p, prove_refs) at h)
]

pub prove_all_refs_inv :
    (resolvers : Resolvers) (added : List AddedRef) (u : Unit {0})
    → prove_all_refs resolvers.original added ≡ ok u
    → All (IsProven resolvers) added
unfolding prove_all_refs
prove_all_refs_inv resolvers [] u h = tt
prove_all_refs_inv resolvers (a ∷ added) u h = elim (Option-cases resolvers.original) [
  | inl absent ↦ cc (rw (absent, prove_all_refs) at h)
  | inr (resolve, given) ↦
      prove_refs_inv resolvers resolve (a ∷ added) u given (rw (given, prove_all_refs) at h)
]

-- What the loop makes of one reference, given that all it makes has a property.
abbrev pub Adds : Dict Text (List ℕ) → (AddedRef → Type 0) → Ref → Type 0
Adds contexts P r =
    (indices : List ℕ) × (at r.location.uri contexts ≡ some indices)
    × P (record { ref = r; original_graph_indices = sorted_by key_order number indices })

pub add_refs_loop_inv :
    (P : AddedRef → Type 0) (contexts : Dict Text (List ℕ)) (refs : List Ref)
    (before added : List AddedRef)
    → add_refs_loop contexts refs before ≡ ok added
    → All P added
    → All P before × All (Adds contexts P) refs
unfolding add_refs_loop
add_refs_loop_inv P contexts [] before added h all =
    let same : before ≡ added = cc h in (rw same all, tt)
add_refs_loop_inv P contexts (r ∷ refs) before added h all =
    elim (Option-cases (at r.location.uri contexts)) [
      | inl missing ↦ cc (rw (missing, add_refs_loop) at h)
      | inr (indices, there) ↦
          let a : AddedRef = record {
            ref = r;
            original_graph_indices = sorted_by key_order number indices;
          } in
          let (front, rest) =
            add_refs_loop_inv P contexts refs (before ++ a ∷ []) added
              (rw (there, add_refs_loop) at h) all in
          (
            All-append_left P before (a ∷ []) front,
            ((indices, there, (All-append_right P before (a ∷ []) front).0), rest),
          )
    ]

-- What holds of the references in the sorted dictionary holds of each wanted one.
All-insert_by :
    (Q : Ref → Type 0) (x : Key × Ref) (xs : Dict Key Ref)
    → All Q (values (insert_by key_order (λ (p : Key × Ref). p.0) x xs))
    → Q x.1 × All Q (values xs)
unfolding insert_by
All-insert_by Q x [] h = h
All-insert_by Q x (y ∷ ys) h = elim (Bool-cases (key_order.le x.0 y.0)) [
  | inl before ↦ rw before at h
  | inr after ↦
      let h' = rw after at h in let (here, rest) = All-insert_by Q x ys h'.1 in (here, (h'.0, rest))
]

All-sorted_by :
    (Q : Ref → Type 0) (xs : Dict Key Ref)
    → All Q (values (sorted_by key_order (λ (p : Key × Ref). p.0) xs))
    → All Q (values xs)
unfolding sorted_by
All-sorted_by Q [] h = tt
All-sorted_by Q (x ∷ xs) h =
    let (here, rest) = All-insert_by Q x (sorted_by key_order (λ (p : Key × Ref). p.0) xs) h in
    (here, All-sorted_by Q xs rest)

All-keep_if :
    (Q : Ref → Type 0) (wanted : List Key) (refs : Dict Key Ref)
    → All Q (values (keep_if (λ (p : Key × Ref). mem p.0 wanted) refs))
    → All (λ (p : Key × Ref). mem p.0 wanted ≡ true → Q p.1) refs
unfolding keep_if
All-keep_if Q wanted [] h = tt
All-keep_if Q wanted (p ∷ refs) h = elim (Bool-cases (mem p.0 wanted)) [
  | inl inside ↦ let h' = rw inside at h in (λ _. h'.0, All-keep_if Q wanted refs h'.1)
  | inr outside ↦ (λ m. cc, All-keep_if Q wanted refs (rw outside at h))
]

pub refs_at_inv :
    (Q : Ref → Type 0) (wanted : List Key) (refs : Dict Key Ref) (k : Key) (r : Ref)
    → All Q (refs_at wanted refs)
    → at k refs ≡ some r
    → mem k wanted ≡ true
    → Q r
unfolding refs_at
refs_at_inv Q wanted refs k r h there m =
    All-at (λ (p : Key × Ref). mem p.0 wanted ≡ true → Q p.1) k refs r
      (All-keep_if Q wanted refs (All-sorted_by Q _ h)) there m
