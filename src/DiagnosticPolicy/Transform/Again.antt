-- ===== src/DiagnosticPolicy/Transform/Again.antt =====
-- The policy, applied to an entry that it has changed.
use nvim_dot_files.Prelude.{
  ℕ, ◌≡◌, ◌∙◌, refl, ap, Bool, true, false, List, [], ◌∷◌, Eq-number, Eq-list, ◌==◌, Bool-cases,
  inl, inr,
}
use nvim_dot_files.Prelude.Texts.{Text, codes}
use nvim_dot_files.Prelude.Result.{Result, ok, err, >>=-elim-ok}
use nvim_dot_files.Prelude.Sets.{mem, some_of}
use nvim_dot_files.Argv.Posix.{ArgvFault}
use nvim_dot_files.Argv.Syntax.{array, Entry, get}
use nvim_dot_files.Argv.Normalize.{
  file_key, arguments_key, put, truth, nonempty, structured, normalize_from, normalize_cdb,
}
use nvim_dot_files.Argv.Normalize.Entries.{structured_arguments, normalize_entry-put}
use nvim_dot_files.Argv.Normalize.Stable.{normalize_cdb-AllNormalized}
use nvim_dot_files.DiagnosticPolicy.Options.{read_options}
use nvim_dot_files.DiagnosticPolicy.Transform.{
  Verdict, added, explicit_control, warnings_disabled, incomplete_option, unsupported_target,
  unsupported_standard, unsupported_language, unproven_language, PolicyFault, Setting, before_marks,
  has_nul, check_language, verdict, with_flag, give, list_of, judge, sole, transform_entry,
}

-- What an accepted list of arguments looks like.
Accepted : List Text → Type 0
Accepted [] = ⊥
Accepted (compiler ∷ args) =
    ((compiler == codes "--") ≡ false) × (has_nul (compiler ∷ args) ≡ false)

verdict-Accepted :
    (setting : Setting) (entry : Entry) (args : List Text)
    → verdict setting entry args ≡ ok added
    → Accepted args
unfolding verdict Accepted before_marks has_nul some_of mem read_options check_language
verdict-Accepted setting entry [] h = cc h
verdict-Accepted setting entry (compiler ∷ args) h = elim (Bool-cases (compiler == codes "--")) [
  | inl mark ↦ elim (Bool-cases (has_nul (compiler ∷ args))) [
    | inl nul ↦ cc (rw (mark, nul) at h)
    | inr clean ↦ cc (rw (mark, clean) at h)
  ]
  | inr other ↦ elim (Bool-cases (has_nul (compiler ∷ args))) [
    | inl nul ↦ cc (rw nul at h)
    | inr clean ↦ (other, clean)
  ]
]

verdict-with_flag :
    (setting : Setting) (entry : Entry) (args : List Text)
    → Accepted args
    → verdict setting entry (with_flag args) ≡ ok explicit_control
unfolding verdict Accepted before_marks has_nul some_of mem
verdict-with_flag setting entry [] h = absurd h
verdict-with_flag setting entry (compiler ∷ args) (plain, clean) = rw (plain, clean) refl

give-added :
    (entry structured : Entry) (args : List Text) (v : Verdict) (out : Entry)
    → Path
        (Result PolicyFault (Entry × Verdict))
        (ok (give entry structured args v))
        (ok (out, added))
    → (v ≡ added) × (out ≡ put arguments_key (array (with_flag args)) structured)
give-added entry structured args added out h = (refl, cc h)
give-added entry structured args explicit_control out h = cc h
give-added entry structured args warnings_disabled out h = cc h
give-added entry structured args incomplete_option out h = cc h
give-added entry structured args unsupported_target out h = cc h
give-added entry structured args unsupported_standard out h = cc h
give-added entry structured args unsupported_language out h = cc h
give-added entry structured args unproven_language out h = cc h

sole_inv :
    (r : Result ArgvFault (List Entry × ℕ)) (s : Entry)
    → sole r ≡ ok s
    → (rest : List Entry) × (n : ℕ) × (r ≡ ok (s ∷ rest, n))
sole_inv (err fault) s h = cc h
sole_inv (ok ([], n)) s h = cc h
sole_inv (ok (entry ∷ entries, n)) s h = let e : entry ≡ s = cc h in (entries, n, rw e refl)

sole_file :
    (nt : Bool) (entry s : Entry)
    → sole (normalize_cdb nt (entry ∷ [])) ≡ ok s
    → truth (get file_key s) ≡ true
sole_file nt entry s h =
    let (rest, n, e) = sole_inv (normalize_cdb nt (entry ∷ [])) s h in
    let (normal, count) = normalize_cdb-AllNormalized nt (entry ∷ []) (s ∷ rest) n e in
    normal.0.some_file

sole-put :
    (nt : Bool) (entry : Entry) (args : List Text)
    → truth (get file_key entry) ≡ true
    → nonempty args ≡ true
    → sole (normalize_cdb nt (put arguments_key (array args) entry ∷ []))
      ≡ ok (structured (put arguments_key (array args) entry) args)
unfolding normalize_cdb normalize_from
sole-put nt entry args file some_args = rw (normalize_entry-put nt 0 entry args file some_args) refl

nonempty-with_flag : (args : List Text) → Accepted args → nonempty (with_flag args) ≡ true
unfolding Accepted
nonempty-with_flag [] h = absurd h
nonempty-with_flag (compiler ∷ args) h = refl

-- An entry that has got the flag says so itself: the policy leaves it as it is, for that reason.
pub transform_entry_again :
    (setting : Setting) (entry out : Entry)
    → transform_entry setting entry ≡ ok (out, added)
    → transform_entry setting out ≡ ok (out, explicit_control)
unfolding transform_entry judge
transform_entry_again setting entry out h =
    >>=-elim-ok (sole (normalize_cdb setting.nt (entry ∷ []))) _ h λ s p h₁.
      >>=-elim-ok (list_of (get arguments_key s)) _ h₁ λ args q h₂.
        >>=-elim-ok (verdict setting entry args) _ h₂ λ v r h₃.
          let (is_added, made) = give-added entry s args v out h₃ in
          let accepted = verdict-Accepted setting entry args (r ∙ ap ok is_added) in
          let some_args = nonempty-with_flag args accepted in
          let file = sole_file setting.nt entry s p in
          rw made (
            rw (sole-put setting.nt s (with_flag args) file some_args) (
              rw
                (structured_arguments (put arguments_key (array (with_flag args)) s)
                  (with_flag args))
                (rw
                  (verdict-with_flag setting (put arguments_key (array (with_flag args)) s) args
                    accepted)
                  refl)))
