-- ===== src/Partition/Macros/Printed.antt =====
-- Options of a compiler as they are written, and what each makes of the macros.
use nvim_dot_files.Prelude.{
  ℕ, ◌≡◌, ◌∙◌, refl, sym, subst, Bool, true, false, not, ◌&&◌, List, [], ◌∷◌, ◌++◌, Option, none,
  some, if◌then◌else◌, ◌==◌, Eq-number, Eq-list, Bool-cases, inl, inr, beq_eq,
}
use nvim_dot_files.Prelude.Texts.{Text, codes}
use nvim_dot_files.Prelude.Sets.{mem, every}
use nvim_dot_files.Prelude.Dicts.{at, assign, discard, at-assign, at-discard}
use nvim_dot_files.ShardSeed.{starts_with}
use nvim_dot_files.Partition.Macros.{macro_names, Macros, is_opaque}

-- The options of a compiler: a macro that is defined, with its name, its parameters and its replacement; a
-- macro that is undefined; and another argument. The operand of a macro stands apart from the letter, or
-- is joined to it.
pub data CompilerOption : Type 0 where
  define : Bool → Text → Option Text → Option Text → CompilerOption
  undefine : Bool → Text → CompilerOption
  plain : Text → CompilerOption

-- A macro with what follows the parenthesis of its parameters.
abbrev pub head_of : Text → Option Text → Text
head_of name none = name
head_of name (some parameters) = name ++ b'(' ∷ parameters

abbrev pub operand : Text → Option Text → Text
operand head none = head
operand head (some value) = head ++ b'=' ∷ value

abbrev pub letter_of : Bool → Text
letter_of false = codes "-D"
letter_of true = codes "-U"

abbrev pub print_macro : Bool → Bool → Text → List Text
print_macro undefines true text = letter_of undefines ∷ text ∷ []
print_macro undefines false text = (letter_of undefines ++ text) ∷ []

abbrev pub print : CompilerOption → List Text
print (define apart name parameters value) =
    print_macro false apart (operand (head_of name parameters) value)
print (undefine apart name) = print_macro true apart name
print (plain arg) = arg ∷ []

abbrev pub print_all : List CompilerOption → List Text
print_all [] = []
print_all (o ∷ options) = print o ++ print_all options

-- What may stand behind the options: nothing, or `--` and any arguments.
abbrev pub print_files : Option (List Text) → List Text
print_files none = []
print_files (some files) = codes "--" ∷ files

abbrev pub is_macro_char : ℕ → Bool
is_macro_char c = not (c == b'=') && not (c == b'(')

-- A name of a macro: not empty, without `=` and `(`, and without a dash at its front.
abbrev pub IsName : Text → Type 0
IsName name =
    (every is_macro_char name ≡ true)
    × ((name == []) ≡ false)
    × (starts_with (codes "-") name ≡ false)

-- A build macro has no parameters; and an argument that has nothing to do with macros.
abbrev pub IsPrinted : CompilerOption → Type 0
IsPrinted (define apart name none value) = IsName name
IsPrinted (define apart name (some parameters) value) =
    IsName name × (every (λ c. not (c == b'=')) parameters ≡ true) × (mem name macro_names ≡ false)
IsPrinted (undefine apart name) = IsName name
IsPrinted (plain arg) =
    ((arg == codes "--") ≡ false)
    × (is_opaque arg ≡ false)
    × (starts_with (codes "-D") arg ≡ false)
    × (starts_with (codes "-U") arg ≡ false)

abbrev pub value_of : Option Text → Text
value_of none = codes "1"
value_of (some value) = value

-- What an option makes of the value that the options before it have left.
abbrev pub effect : Text → CompilerOption → Option Text → Option Text
effect name (define apart n none value) before = if name == n then some (value_of value) else before
effect name (define apart n (some parameters) value) before = before
effect name (undefine apart n) before = if name == n then none else before
effect name (plain arg) before = before

-- The value of a macro behind some options.
abbrev pub last_value : Text → List CompilerOption → Option Text → Option Text
last_value name [] before = before
last_value name (o ∷ options) before = last_value name options (effect name o before)

abbrev pub apply : CompilerOption → Macros → Macros
apply (define apart n none value) macros =
    if mem n macro_names then assign n (value_of value) macros else macros
apply (define apart n (some parameters) value) macros = macros
apply (undefine apart n) macros = if mem n macro_names then discard n macros else macros
apply (plain arg) macros = macros

unfoldable pub apply_all : List CompilerOption → Macros → Macros
apply_all [] macros = macros
apply_all (o ∷ options) macros = apply_all options (apply o macros)

-- A value that is kept for build macros only.
abbrev known_only : Text → Option Text → Option Text → Option Text
known_only name value before = if mem name macro_names then value else before

known_self : (name : Text) (o : Option Text) → o ≡ known_only name o o
known_self name o = elim (Bool-cases (mem name macro_names)) [
  | inl k ↦ rw k refl
  | inr k ↦ rw k refl
]

known_change :
    (name n : Text) (after before : Option Text) (changed : Option Text)
    → changed ≡ (if name == n then after else before)
    → (if mem n macro_names then changed else before)
      ≡ known_only name (if name == n then after else before) before
known_change name n after before changed e = elim (Bool-cases (name == n)) [
  | inl same ↦
      subst
        (λ t.
          (if mem n macro_names then changed else before)
          ≡ (if mem t macro_names then (if name == n then after else before) else before))
        (sym (beq_eq name n same)) (rw e refl)
  | inr other ↦ rw (e, other) (sym (known_self n before) ∙ known_self name before)
]

at-apply :
    (name : Text) (o : CompilerOption) (macros : Macros)
    → at name (apply o macros) ≡ known_only name (effect name o (at name macros)) (at name macros)
at-apply name (define apart n none value) macros =
    at_if (mem n macro_names)
    ∙ known_change name n (some (value_of value)) (at name macros)
        (at name (assign n (value_of value) macros)) (at-assign name n (value_of value) macros)
  where
    at_if :
        (b : Bool)
        → at name (if b then assign n (value_of value) macros else macros)
          ≡ (if b then at name (assign n (value_of value) macros) else at name macros)
    at_if true = refl
    at_if false = refl
at-apply name (define apart n (some parameters) value) macros = known_self name (at name macros)
at-apply name (undefine apart n) macros =
    at_if (mem n macro_names)
    ∙ known_change name n none (at name macros) (at name (discard n macros))
        (at-discard name n macros)
  where
    at_if :
        (b : Bool)
        → at name (if b then discard n macros else macros)
          ≡ (if b then at name (discard n macros) else at name macros)
    at_if true = refl
    at_if false = refl
at-apply name (plain arg) macros = known_self name (at name macros)

pub at-apply_all :
    (name : Text) (options : List CompilerOption) (macros : Macros)
    → at name (apply_all options macros)
      ≡ known_only name (last_value name options (at name macros)) (at name macros)
unfolding apply_all
at-apply_all name [] macros = known_self name (at name macros)
at-apply_all name (o ∷ options) macros = elim (Bool-cases (mem name macro_names)) [
  | inl known ↦ rw (at-apply_all name options (apply o macros), at-apply name o macros, known) refl
  | inr other ↦ rw (at-apply_all name options (apply o macros), at-apply name o macros, other) refl
]
