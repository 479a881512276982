-- ===== src/DiagnosticPolicy/Transform/Settled.antt =====
-- The policy, applied to the database that it has written.
use nvim_dot_files.Prelude.{
  ℕ, ◌≡◌, ◌∙◌, refl, sym, ap, true, false, List, [], ◌∷◌, none, some, nat_eq, Eq-number, Eq-list,
  Bool-cases, inl, inr, arith,
}
use nvim_dot_files.Prelude.Texts.{Text}
use nvim_dot_files.Prelude.Result.{Result, ok, >>=-elim-ok}
use nvim_dot_files.Argv.Syntax.{Entry, get}
use nvim_dot_files.Argv.Normalize.{arguments_key, normalize_cdb}
use nvim_dot_files.DiagnosticPolicy.Version.{supported_version}
use nvim_dot_files.DiagnosticPolicy.Transform.{
  Verdict, added, explicit_control, warnings_disabled, incomplete_option, unsupported_target,
  unsupported_standard, unsupported_language, unproven_language, PolicyFault, Setting, verdict,
  give, list_of, judge, sole, transform_entry, transform_all, is_added, count_added, apply_policy,
}
use nvim_dot_files.DiagnosticPolicy.Transform.Again.{transform_entry_again}

give_kept :
    (entry structured : Entry) (args : List Text) (w v : Verdict) (out : Entry)
    → Path (Result PolicyFault (Entry × Verdict)) (ok (give entry structured args w)) (ok (out, v))
    → is_added v ≡ false
    → out ≡ entry
give_kept entry structured args added v out h kept =
    let e : added ≡ v = cc h in absurd (cc (ap is_added e, kept))
give_kept entry structured args explicit_control v out h kept = cc h
give_kept entry structured args warnings_disabled v out h kept = cc h
give_kept entry structured args incomplete_option v out h kept = cc h
give_kept entry structured args unsupported_target v out h kept = cc h
give_kept entry structured args unsupported_standard v out h kept = cc h
give_kept entry structured args unsupported_language v out h kept = cc h
give_kept entry structured args unproven_language v out h kept = cc h

transform_entry_kept :
    (setting : Setting) (entry out : Entry) (v : Verdict)
    → transform_entry setting entry ≡ ok (out, v)
    → is_added v ≡ false
    → out ≡ entry
unfolding transform_entry judge
transform_entry_kept setting entry out v h kept =
    >>=-elim-ok (sole (normalize_cdb setting.nt (entry ∷ []))) _ h λ s p h₁.
      >>=-elim-ok (list_of (get arguments_key s)) _ h₁ λ args q h₂.
        >>=-elim-ok (verdict setting entry args) _ h₂
          λ w r h₃. give_kept entry s args w v out h₃ kept

added_only : (v : Verdict) → is_added v ≡ true → v ≡ added
added_only added h = refl
added_only explicit_control h = cc h
added_only warnings_disabled h = cc h
added_only incomplete_option h = cc h
added_only unsupported_target h = cc h
added_only unsupported_standard h = cc h
added_only unsupported_language h = cc h
added_only unproven_language h = cc h

-- An entry that the policy leaves as it is.
abbrev IsSettled : Setting → Entry → Type 0
IsSettled setting out =
    (v : Verdict) × (transform_entry setting out ≡ ok (out, v)) × (is_added v ≡ false)

transform_entry-IsSettled :
    (setting : Setting) (entry out : Entry) (v : Verdict)
    → transform_entry setting entry ≡ ok (out, v)
    → IsSettled setting out
transform_entry-IsSettled setting entry out v h = elim (Bool-cases (is_added v)) [
  | inl got ↦
      let e : v ≡ added = added_only v got in
      (
        explicit_control,
        transform_entry_again setting entry out (h ∙ ap (λ (w : Verdict). ok (out, w)) e),
        refl,
      )
  | inr kept ↦
      let e : out ≡ entry = transform_entry_kept setting entry out v h kept in
      (v, ap (transform_entry setting) e ∙ h, kept)
]

transform_all_settled :
    (setting : Setting) (entries out : List Entry) (verdicts : List Verdict)
    → transform_all setting entries ≡ ok (out, verdicts)
    → (later : List Verdict) × (transform_all setting out ≡ ok (out, later))
      × (count_added later ≡ 0)
unfolding transform_all count_added
transform_all_settled setting [] out verdicts h =
    let e : [] ≡ out = cc h in ([], rw (sym e) refl, refl)
transform_all_settled setting (entry ∷ entries) out verdicts h =
    >>=-elim-ok (transform_entry setting entry) _ h λ first p h₁.
      >>=-elim-ok (transform_all setting entries) _ h₁ λ rest q h₂.
        let (v, again, kept) = transform_entry-IsSettled setting entry first.0 first.1 p in
        let (later, others, zero_added) = transform_all_settled setting entries rest.0 rest.1 q in
        let e : first.0 ∷ rest.0 ≡ out = cc h₂ in
        rw (sym e) (v ∷ later, rw again (rw others refl), rw kept (omega (arith, zero_added)))

-- A database that the policy has written is left alone when the policy is applied to it again, with the
-- same version of clangd: nothing is written, and no entry gets the flag.
pub apply_policy_again :
    (setting : Setting) (version_output : Text) (entries out : List Entry) (n : ℕ)
    → apply_policy setting version_output entries ≡ ok (some out, n)
    → apply_policy setting version_output out ≡ ok (none, 0)
unfolding apply_policy
apply_policy_again setting version_output entries out n h =
    elim (Bool-cases (supported_version setting.classes setting.wide_digit version_output)) [
      | inr other ↦ cc (rw other at h)
      | inl supported ↦ >>=-elim-ok (transform_all setting entries) _ (rw supported at h) λ r p h₁.
          elim (Bool-cases (nat_eq (count_added r.1) 0)) [
            | inl nothing ↦ cc (rw nothing at h₁)
            | inr something ↦
                let e : r.0 ≡ out = cc (rw something at h₁) in
                let (later, again, zero_added) = transform_all_settled setting entries r.0 r.1 p in
                rw (sym e) (rw supported (rw again (rw zero_added refl)))
          ]
    ]
