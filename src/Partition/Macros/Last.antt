-- ===== src/Partition/Macros/Last.antt =====
-- The last -D or -U of a build macro decides its value; other macros change nothing.
use nvim_dot_files.Prelude.{
  ◌≡◌, ◌∙◌, refl, ap, Bool, true, false, not, List, [], ◌∷◌, ◌++◌, append_assoc, Option, none, some,
  All, if◌then◌else◌, arith, ◌==◌, Eq-number, Eq-list,
}
use nvim_dot_files.Prelude.Texts.{Text, codes}
use nvim_dot_files.Prelude.Sets.{mem, every}
use nvim_dot_files.Prelude.Dicts.{at, assign, discard}
use nvim_dot_files.ShardSeed.{starts_with}
use nvim_dot_files.Partition.Macros.{
  macro_names, Macros, set_known, set_operand, is_opaque, macros_loop,
}
use nvim_dot_files.Partition.Macros.Printed.{
  CompilerOption, define, undefine, plain, head_of, operand, letter_of, print_macro, print,
  print_all, print_files, is_macro_char, IsName, IsPrinted, value_of, last_value, apply, apply_all,
  at-apply_all,
}
use nvim_dot_files.Partition.Macros.Operands.{
  name_clear, every-append, set_macro_name, set_macro_head, set_text,
}

-- What an operand is to the loop: not empty, and not like an option.
abbrev IsOperand : Text → Type 0
IsOperand t = ((t == []) ≡ false) × (starts_with (codes "-") t ≡ false)

operand-IsOperand :
    (name : Text) (parameters value : Option Text)
    → IsName name
    → IsOperand (operand (head_of name parameters) value)
unfolding starts_with
operand-IsOperand [] parameters value (clear, full, dash) = cc full
operand-IsOperand (c ∷ name) none none (clear, full, dash) = (refl, dash)
operand-IsOperand (c ∷ name) none (some value) (clear, full, dash) = (refl, dash)
operand-IsOperand (c ∷ name) (some parameters) none (clear, full, dash) = (refl, dash)
operand-IsOperand (c ∷ name) (some parameters) (some value) (clear, full, dash) = (refl, dash)

-- One round of the loop reads an option.
module _ (undefines : Bool) (text : Text) (macros later : Macros) where
  joined_step :
      (args : List Text)
      → IsOperand text
      → set_operand undefines text macros ≡ some later
      → macros_loop ((letter_of undefines ++ text) ∷ args) macros ≡ macros_loop args later
  unfolding macros_loop is_opaque starts_with
  joined_step args (full, dash) e = go undefines args e
    where
      go :
          (u : Bool) (args : List Text)
          → set_operand u text macros ≡ some later
          → macros_loop ((letter_of u ++ text) ∷ args) macros ≡ macros_loop args later
      go false [] e = rw (full, e) refl
      go false (next ∷ args) e = rw (full, e) refl
      go true [] e = rw (full, e) refl
      go true (next ∷ args) e = rw (full, e) refl

  apart_step :
      (args : List Text)
      → IsOperand text
      → set_operand undefines text macros ≡ some later
      → macros_loop (letter_of undefines ∷ text ∷ args) macros ≡ macros_loop args later
  unfolding macros_loop is_opaque
  apart_step args (full, dash) e = go undefines e
    where
      go :
          (u : Bool)
          → set_operand u text macros ≡ some later
          → macros_loop (letter_of u ∷ text ∷ args) macros ≡ macros_loop args later
      go false e = rw (dash, e) refl
      go true e = rw (dash, e) refl

  macro_step :
      (apart : Bool) (args : List Text)
      → IsOperand text
      → set_operand undefines text macros ≡ some later
      → macros_loop (print_macro undefines apart text ++ args) macros ≡ macros_loop args later
  macro_step true args h e = apart_step args h e
  macro_step false args h e = joined_step args h e

plain_step :
    (arg : Text) (args : List Text) (macros : Macros)
    → IsPrinted (plain arg)
    → macros_loop (arg ∷ args) macros ≡ macros_loop args macros
unfolding macros_loop
plain_step arg [] macros (a, b, c, d) = rw (a, b, c, d) refl
plain_step arg (next ∷ args) macros (a, b, c, d) = rw (a, b, c, d) refl

set_define :
    (apart : Bool) (name : Text) (value : Option Text) (macros : Macros)
    → every is_macro_char name ≡ true
    → set_operand false (operand name value) macros
      ≡ some (apply (define apart name none value) macros)
unfolding set_known
set_define apart name value macros clear =
    set_text false name value macros (name_clear name clear).0
    ∙ set_macro_name false name value macros clear
    ∙ known value (mem name macro_names)
  where
    known :
        (value : Option Text) (b : Bool)
        → (if b then set_known false name value macros else some macros)
          ≡ some (if b then assign name (value_of value) macros else macros)
    known value false = refl
    known none true = refl
    known (some v) true = refl

set_undefine :
    (apart : Bool) (name : Text) (macros : Macros)
    → every is_macro_char name ≡ true
    → set_operand true name macros ≡ some (apply (undefine apart name) macros)
unfolding set_known
set_undefine apart name macros clear =
    set_text true name none macros (name_clear name clear).0
    ∙ set_macro_name true name none macros clear
    ∙ known (mem name macro_names)
  where
    known :
        (b : Bool)
        → (if b then set_known true name none macros else some macros)
          ≡ some (if b then discard name macros else macros)
    known true = refl
    known false = refl

set_function :
    (name parameters : Text) (value : Option Text) (macros : Macros)
    → every is_macro_char name ≡ true
    → every (λ c. not (c == b'=')) parameters ≡ true
    → mem name macro_names ≡ false
    → set_operand false (operand (name ++ b'(' ∷ parameters) value) macros ≡ some macros
unfolding every
set_function name parameters value macros clear p other =
    let whole : every (λ c. not (c == b'=')) (name ++ b'(' ∷ parameters) ≡ true = ground (
      arith,
      every-append (λ c. not (c == b'=')) name (b'(' ∷ parameters),
      (name_clear name clear).0,
    ) in
    set_text false (name ++ b'(' ∷ parameters) value macros whole
    ∙ set_macro_head name parameters value macros clear other

option_step :
    (o : CompilerOption) (args : List Text) (macros : Macros)
    → IsPrinted o
    → macros_loop (print o ++ args) macros ≡ macros_loop args (apply o macros)
option_step (define apart name none value) args macros h =
    macro_step false (operand name value) macros _ apart args (operand-IsOperand name none value h)
      (set_define apart name value macros h.0)
option_step (define apart name (some parameters) value) args macros (h, p, other) =
    macro_step false (operand (name ++ b'(' ∷ parameters) value) macros macros apart args
      (operand-IsOperand name (some parameters) value h)
      (set_function name parameters value macros h.0 p other)
option_step (undefine apart name) args macros h =
    macro_step true name macros _ apart args (operand-IsOperand name none none h)
      (set_undefine apart name macros h.0)
option_step (plain arg) args macros h = plain_step arg args macros h

files_end :
    (files : Option (List Text)) (macros : Macros)
    → macros_loop (print_files files) macros ≡ some macros
unfolding macros_loop
files_end none macros = refl
files_end (some []) macros = refl
files_end (some (file ∷ files)) macros = refl

loop_reads :
    (options : List CompilerOption) (files : Option (List Text)) (macros : Macros)
    → All IsPrinted options
    → macros_loop (print_all options ++ print_files files) macros ≡ some (apply_all options macros)
unfolding apply_all
loop_reads [] files macros h = files_end files macros
loop_reads (o ∷ options) files macros (here, rest) =
    ap (λ args. macros_loop args macros)
      (append_assoc (print o) (print_all options) (print_files files))
    ∙ option_step o (print_all options ++ print_files files) macros here
    ∙ loop_reads options files (apply o macros) rest

-- The loop of `_macro_configuration` reads options up to the end or to `--`: definitions of macros, with
-- parameters where the macro is none of the build, and undefinitions, their operands joined to the letter
-- or apart, and arguments that have nothing to do with macros. It leaves for each build macro the value of
-- its last -D, which is "1" where none is given, or none where a -U is the last, and for other names none.
pub macros_loop-last_value :
    (options : List CompilerOption) (files : Option (List Text))
    → All IsPrinted options
    → (macros : Macros) × (macros_loop (print_all options ++ print_files files) [] ≡ some macros)
      × ((name : Text)
          → at name macros ≡ (if mem name macro_names then last_value name options none else none))
unfolding at
macros_loop-last_value options files h =
    (apply_all options [], loop_reads options files [] h, λ name. at-apply_all name options [])
