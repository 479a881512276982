-- ===== src/Admission/Verdict/Sound.antt =====
-- What an acceptance by `compare_graphs` says of the graphs.
use nvim_dot_files.Prelude.{
  ℕ, ◌≡◌, ◌⊎◌, ◌∙◌, refl, All, true, false, List, [], ◌∷◌, some, Option-cases, inl, inr, arith,
  Eq-number, Eq-list,
}
use nvim_dot_files.Prelude.Result.{Result, ok, err, >>=-elim-ok}
use nvim_dot_files.Prelude.Sorting.{sorted_by}
use nvim_dot_files.Prelude.Sets.{
  mem, difference, same_set-mem, subset-mem, subset-difference, mem-sorted_by,
}
use nvim_dot_files.Prelude.Dicts.{at, keys}
use nvim_dot_files.IndexGraph.Reader.{Text}
use nvim_dot_files.IndexGraph.Shard.{Ref}
use nvim_dot_files.IndexGraph.Key.{Key, ref_key, number}
use nvim_dot_files.IndexGraph.Key.Compare.{Eq-key, key_order}
use nvim_dot_files.IndexGraph.Canonical.{Graph}
use nvim_dot_files.Admission.Collect.{Collected, collect}
use nvim_dot_files.Admission.Collect.Union.{
  all_files, gather, uris_in, symbol_ids, ref_keys, relation_keys, IsUnion, collect-IsUnion,
}
use nvim_dot_files.Admission.Collect.Contexts.{holders, collect-holders}
use nvim_dot_files.Admission.Providers.{Urls}
use nvim_dot_files.Admission.Templates.{TemplateRequest}
use nvim_dot_files.Admission.Compare.{
  AddedRef, Answer, proven, Question, Resolvers, Reason, accepted, Check, caught, check_unions,
  refs_at,
}
use nvim_dot_files.Admission.Collect.Keyed.{collect-ref_key}
use nvim_dot_files.Admission.Verdict.{
  add_refs_loop, question_of, prove_all_refs, prove_all_templates, prove_both, verdict_of, conclude,
  check_graphs, compare_graphs,
}
use nvim_dot_files.Admission.Verdict.Inversion.{
  Checked, check_unions_inv, caught_inv, IsProven, prove_all_refs_inv, Adds, add_refs_loop_inv,
  refs_at_inv,
}
use nvim_dot_files.IndexGraph.Key.Injective.{ref_key-injective}
use nvim_dot_files.Prelude.Sets.{mem-difference}
use nvim_dot_files.Prelude.Dicts.{mem-keys}

loop-cases :
    (r : Result (List AddedRef) (List AddedRef))
    → ((a : List AddedRef) × (r ≡ err a)) ⊎ ((a : List AddedRef) × (r ≡ ok a))
loop-cases (err a) = inl (a, refl)
loop-cases (ok a) = inr (a, refl)

-- What an acceptance came from.
record Accepted (urls : Urls) (resolvers : Resolvers) (originals : List Graph) (candidate : Graph)
    (ignored : List Text) : Type 0 where
  before : Collected
  after : Collected
  left : collect ignored originals ≡ ok before
  right : collect ignored (candidate ∷ []) ≡ ok after
  checked : Checked before after
  proven_refs :
      All
        (Adds before.contexts (IsProven resolvers))
        (refs_at (difference (keys after.refs) (keys before.refs)) after.refs)

verdict_inv :
    (added added' : List AddedRef) (check : Check (List TemplateRequest))
    (requests : List TemplateRequest)
    → verdict_of added check ≡ accepted added' requests
    → check ≡ ok requests
unfolding verdict_of
verdict_inv added added' (ok r) requests h = cc h
verdict_inv added added' (err reason) requests h = cc

prove_both_inv :
    (resolvers : Resolvers) (added : List AddedRef) (asked requests : List TemplateRequest)
    → prove_both resolvers added asked ≡ ok requests
    → All (IsProven resolvers) added
unfolding prove_both
prove_both_inv resolvers added asked requests h =
    >>=-elim-ok (prove_all_templates resolvers.template_arguments asked) _ h λ a p h.
      >>=-elim-ok (prove_all_refs resolvers.original added) _ h
        λ b q h. prove_all_refs_inv resolvers added b q

conclude_inv :
    (resolvers : Resolvers) (originals : List Graph) (before after : Collected)
    (changed : List Text) (added : List AddedRef) (requests : List TemplateRequest)
    → conclude resolvers originals before after changed ≡ accepted added requests
    → All
        (Adds before.contexts (IsProven resolvers))
        (refs_at (difference (keys after.refs) (keys before.refs)) after.refs)
unfolding conclude
conclude_inv resolvers originals before after changed added requests h =
    let refs = refs_at (difference (keys after.refs) (keys before.refs)) after.refs in
    elim (loop-cases (add_refs_loop before.contexts refs [])) [
      | inl (a, failed) ↦ cc (rw (failed, conclude) at h)
      | inr (a, done) ↦
          (add_refs_loop_inv (IsProven resolvers) before.contexts refs [] a done (
            prove_both_inv resolvers a _ requests
              (verdict_inv a added _ requests (rw (done, conclude) at h)))).1
    ]

check-cases : {A : Type 0} (r : Check A) → ((x : Reason) × (r ≡ err x)) ⊎ ((a : A) × (r ≡ ok a))
check-cases (err x) = inl (x, refl)
check-cases (ok a) = inr (a, refl)

check_graphs_inv :
    (urls : Urls) (resolvers : Resolvers) (originals : List Graph) (candidate : Graph)
    (ignored : List Text) (added : List AddedRef) (requests : List TemplateRequest)
    → compare_graphs urls resolvers originals candidate ignored ≡ accepted added requests
    → Accepted urls resolvers originals candidate ignored
unfolding compare_graphs check_graphs
check_graphs_inv urls resolvers [] candidate ignored added requests h = cc
check_graphs_inv urls resolvers (g ∷ originals) candidate ignored added requests h =
    elim (check-cases (check_graphs urls (g ∷ originals) candidate ignored)) [
      | inl (reason, failed) ↦ cc (rw (failed, compare_graphs) at h)
      | inr ((before, after, changed), done) ↦
          >>=-elim-ok (caught (collect ignored (g ∷ originals))) _ done λ b p h₁.
            >>=-elim-ok (caught (collect ignored (candidate ∷ []))) _ h₁ λ a q h₂.
              >>=-elim-ok (check_unions urls (g ∷ originals) b a) _ h₂ λ c r h₃.
                let same_b : b ≡ before = cc h₃ in
                let same_a : a ≡ after = cc h₃ in
                record {
                  before = before;
                  after = after;
                  left = rw same_b at (caught_inv _ b p);
                  right = rw same_a at (caught_inv _ a q);
                  checked =
                      rw same_b at (rw same_a at (check_unions_inv urls (g ∷ originals) b a c r));
                  proven_refs =
                      conclude_inv resolvers (g ∷ originals) before after changed added requests
                        (rw (done, compare_graphs) at h);
                }
    ]

-- A reference that some callback has proven: it was asked for the place and the symbol, with the
-- indices of the original graphs that have the file.
abbrev pub WasAsked : Resolvers → List Text → List Graph → Ref → Type 0
WasAsked resolvers ignored originals r =
    (resolve : Question → Answer) × (q : Question) × (resolvers.original ≡ some resolve)
    × (resolve q ≡ proven)
    × (q.uri ≡ r.location.uri)
    × (q.line ≡ r.location.start.0)
    × (q.column ≡ r.location.start.1)
    × (q.symbol_id ≡ r.symbol_id)
    × ((j : ℕ) → mem j q.indices ≡ mem j (holders ignored r.location.uri 0 originals))

-- What an acceptance means for the files that are not ignored.
pub record Admits (resolvers : Resolvers) (originals : List Graph) (candidate : Graph)
    (ignored : List Text) : Type 0 where
  pub uris :
      (u : Text)
      → mem u (uris_in (all_files ignored (candidate ∷ [])))
        ≡ mem u (uris_in (all_files ignored originals))
  pub ids :
      (id : Text)
      → mem id (gather symbol_ids (all_files ignored (candidate ∷ [])))
        ≡ mem id (gather symbol_ids (all_files ignored originals))
  pub relations :
      (k : Key)
      → mem k (gather relation_keys (all_files ignored (candidate ∷ [])))
        ≡ mem k (gather relation_keys (all_files ignored originals))
  pub kept :
      (k : Key)
      → mem k (gather ref_keys (all_files ignored originals)) ≡ true
      → mem k (gather ref_keys (all_files ignored (candidate ∷ []))) ≡ true
  pub added :
      (r : Ref)
      → mem (ref_key r) (gather ref_keys (all_files ignored (candidate ∷ []))) ≡ true
      → mem (ref_key r) (gather ref_keys (all_files ignored originals)) ≡ false
      → WasAsked resolvers ignored originals r

module _ (urls : Urls) (resolvers : Resolvers) (originals : List Graph) (candidate : Graph)
    (ignored : List Text) (a : Accepted urls resolvers originals candidate ignored) where
  old : IsUnion ignored originals a.before
  old = collect-IsUnion ignored originals a.before a.left

  new : IsUnion ignored (candidate ∷ []) a.after
  new = collect-IsUnion ignored (candidate ∷ []) a.after a.right

  asked_of :
      (r : Ref)
      → Adds a.before.contexts (IsProven resolvers) r
      → WasAsked resolvers ignored originals r
  unfolding question_of
  asked_of r (indices, there, (resolve, given, p)) = (
    resolve,
    question_of (record { ref = r; original_graph_indices = sorted_by key_order number indices }),
    given,
    p,
    refl,
    refl,
    refl,
    refl,
    λ j.
        let known = collect-holders ignored originals a.before a.left r.location.uri j in
        mem-sorted_by key_order number j indices ∙ rw there at known,
  )

  added_of :
      (r : Ref)
      → mem (ref_key r) (gather ref_keys (all_files ignored (candidate ∷ []))) ≡ true
      → mem (ref_key r) (gather ref_keys (all_files ignored originals)) ≡ false
      → WasAsked resolvers ignored originals r
  added_of r here gone = elim (Option-cases (at (ref_key r) a.after.refs)) [
    | inl missing ↦
        let m : mem (ref_key r) (keys a.after.refs) ≡ true = ground (arith, new.refs (ref_key r)) in
        cc (rw missing at (rw (mem-keys (ref_key r) a.after.refs) at m))
    | inr (s, there) ↦
        let same : r ≡ s =
          ref_key-injective r s
            (collect-ref_key ignored (candidate ∷ []) a.after a.right (ref_key r) s there) in
        rw same (
          asked_of s (
            refs_at_inv (Adds a.before.contexts (IsProven resolvers))
              (difference (keys a.after.refs) (keys a.before.refs)) a.after.refs (ref_key r) s
              a.proven_refs there
              (ground (
                arith,
                mem-difference (keys a.after.refs) (keys a.before.refs) (ref_key r),
                new.refs (ref_key r),
                old.refs (ref_key r),
              ))))
  ]

-- When `compare_graphs` accepts, then in the files that are not ignored the candidate has exactly the
-- files, the symbol ids and the relations of the original graphs together, it keeps all their
-- references, and for each reference that it adds `resolve_original` has returned `True` for the place
-- and the symbol, with the indices of all original graphs that have the file.
pub compare_graphs-Admits :
    (urls : Urls) (resolvers : Resolvers) (originals : List Graph) (candidate : Graph)
    (ignored : List Text) (added : List AddedRef) (requests : List TemplateRequest)
    → compare_graphs urls resolvers originals candidate ignored ≡ accepted added requests
    → Admits resolvers originals candidate ignored
compare_graphs-Admits urls resolvers originals candidate ignored added requests h =
    let a = check_graphs_inv urls resolvers originals candidate ignored added requests h in
    let o = old urls resolvers originals candidate ignored a in
    let n = new urls resolvers originals candidate ignored a in
    record {
      uris = λ u. ground (
        arith,
        same_set-mem (keys a.before.sources) (keys a.after.sources) u a.checked.uris,
        o.sources u,
        n.sources u,
      );
      ids = λ id. ground (
        arith,
        same_set-mem (keys a.before.symbols) (keys a.after.symbols) id a.checked.ids,
        o.symbols id,
        n.symbols id,
      );
      relations = λ k. ground (
        arith,
        same_set-mem a.before.relations a.after.relations k a.checked.relations,
        o.relations k,
        n.relations k,
      );
      kept = λ k m. ground (
        arith,
        subset-mem (keys a.before.refs) (keys a.after.refs) k
            (subset-difference (keys a.before.refs) (keys a.after.refs) a.checked.refs),
        o.refs k,
        n.refs k,
      );
      added = added_of urls resolvers originals candidate ignored a;
    }
