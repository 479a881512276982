-- ===== src/Partition/Macros/Operands.antt =====
-- How `set_macro` takes an operand apart.
use nvim_dot_files.Prelude.{
  ℕ, ◌≡◌, refl, Bool, true, false, not, ◌&&◌, [], ◌∷◌, ◌++◌, Option, none, some, if◌then◌else◌,
  arith, ◌==◌, Eq-number, Eq-list, and_both, Bool-cases, inl, inr, beq_self,
}
use nvim_dot_files.Prelude.Texts.{Text}
use nvim_dot_files.Prelude.Sets.{mem, every, every-mem}
use nvim_dot_files.Partition.Macros.{
  macro_names, partition_at, Macros, set_known, set_macro, set_operand,
}
use nvim_dot_files.Partition.Macros.Printed.{operand, is_macro_char}

module _ (mark : ℕ) where
  abbrev is_clear : Text → Bool
  is_clear = every (λ c. not (c == mark))

  partition_whole : (t : Text) → is_clear t ≡ true → partition_at mark t ≡ (t, none)
  unfolding partition_at every
  partition_whole [] h = refl
  partition_whole (c ∷ t) h =
      let (here, rest) = and_both (not (c == mark)) (is_clear t) h in
      let p = partition_whole t rest in
      let apart : (c == mark) ≡ false = ground arith in rw (apart, p) refl

  partition_mark :
      (t value : Text) → is_clear t ≡ true → partition_at mark (t ++ mark ∷ value) ≡ (t, some value)
  unfolding partition_at every
  partition_mark [] value h = rw (beq_self mark) refl
  partition_mark (c ∷ t) value h =
      let (here, rest) = and_both (not (c == mark)) (is_clear t) h in
      let p = partition_mark t value rest in
      let apart : (c == mark) ≡ false = ground arith in rw (apart, p) refl

pub every-append :
    (test : ℕ → Bool) (s t : Text) → every test (s ++ t) ≡ (every test s && every test t)
unfolding every
every-append test [] t = refl
every-append test (c ∷ s) t = ground (arith, every-append test s t)

pub name_clear :
    (name : Text)
    → every is_macro_char name ≡ true
    → (is_clear b'=' name ≡ true) × (is_clear b'(' name ≡ true)
unfolding every
name_clear [] h = (refl, refl)
name_clear (c ∷ name) h =
    let (here, rest) = and_both (is_macro_char c) (every is_macro_char name) h in
    let (a, b) = name_clear name rest in (ground arith, ground arith)

-- No build macro has a sign of equality or a parenthesis in its name.
build_clear : (name : Text) → mem name macro_names ≡ true → every is_macro_char name ≡ true
unfolding every
build_clear name m = every-mem (every is_macro_char) macro_names name refl m

-- A macro with parameters is none of the build macros.
head_unknown : (name parameters : Text) → mem (name ++ b'(' ∷ parameters) macro_names ≡ false
unfolding every
head_unknown name parameters = elim (Bool-cases (mem (name ++ b'(' ∷ parameters) macro_names)) [
  | inr unknown ↦ unknown
  | inl known ↦
      let clear = build_clear (name ++ b'(' ∷ parameters) known in
      absurd (ground (arith, every-append is_macro_char name (b'(' ∷ parameters)))
]

pub set_macro_name :
    (undefines : Bool) (name : Text) (value : Option Text) (macros : Macros)
    → every is_macro_char name ≡ true
    → set_macro undefines name value macros
      ≡ (if mem name macro_names then set_known undefines name value macros else some macros)
unfolding set_macro
set_macro_name undefines name value macros clear = elim (Bool-cases (mem name macro_names)) [
  | inl known ↦ rw known refl
  | inr other ↦ rw (other, partition_whole b'(' name (name_clear name clear).1, other) refl
]

pub set_macro_head :
    (name parameters : Text) (value : Option Text) (macros : Macros)
    → every is_macro_char name ≡ true
    → mem name macro_names ≡ false
    → set_macro false (name ++ b'(' ∷ parameters) value macros ≡ some macros
unfolding set_macro
set_macro_head name parameters value macros clear other =
    rw
      (
        head_unknown name parameters,
        partition_mark b'(' name parameters (name_clear name clear).1,
        other,
      )
      refl

pub set_text :
    (undefines : Bool) (head : Text) (value : Option Text) (macros : Macros)
    → is_clear b'=' head ≡ true
    → set_operand undefines (operand head value) macros ≡ set_macro undefines head value macros
unfolding set_operand
set_text undefines head none macros clear = rw (partition_whole b'=' head clear) refl
set_text undefines head (some value) macros clear = rw (partition_mark b'=' head value clear) refl
