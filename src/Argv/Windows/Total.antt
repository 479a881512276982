-- ===== src/Argv/Windows/Total.antt =====
-- The loops of `split_windows_command_line` end.
use nvim_dot_files.Prelude.{
  ℕ, zero, suc, ◌%◌, ◌≤◌, ◌≡◌, refl, sym, ap, ◌∙◌, Bool, true, false, ◌&&◌, List, [], ◌∷◌, some,
  length, nat_eq, Bool-cases, inl, inr, arith,
}
use mathlib.Core.Bool.{true≢false}
use nvim_dot_files.Prelude.Texts.{Text}
use nvim_dot_files.Argv.Windows.{
  Char, blank, quote, backslash, other, char_of, starts_quote, Argument, toggle, escaped, slash,
  literal, finished, argument_loop, new_argument, split_windows_argument, is_blank, split_loop,
  split_windows_command_line,
}
use nvim_dot_files.Argv.Windows.Runs.{Char-cases}

argument_loop_le :
    (skip : Bool) (a : Argument) (s : Text) → length (argument_loop skip a s).1 ≤ length s
unfolding argument_loop
argument_loop_le skip a [] = omega arith
argument_loop_le true a (c ∷ rest) = omega (arith, argument_loop_le false a rest)
argument_loop_le false a (c ∷ rest) =
    go (λ skip b. argument_loop_le skip b rest) (char_of c) a.in_quotes
      (nat_eq (a.backslashes % 2) 0)
  where
    go :
        ((skip : Bool) (b : Argument) → length (argument_loop skip b rest).1 ≤ length rest)
        → (k : Char) (q even : Bool)
        → length
            (elim k as (λ x. Text × Text) [
              | blank ↦ elim q as (λ x. Text × Text) [
                | true ↦ argument_loop false (literal c a) rest
                | false ↦ (finished a, rest)
              ]
              | quote ↦ elim even as (λ x. Text × Text) [
                | true ↦ argument_loop (q && starts_quote rest) (toggle a (starts_quote rest)) rest
                | false ↦ argument_loop false (escaped a) rest
              ]
              | backslash ↦ argument_loop false (slash a) rest
              | other ↦ argument_loop false (literal c a) rest
            ]).1
          ≤ suc (length rest)
    go le blank true even = omega (arith, le false (literal c a))
    go le blank false even = omega arith
    go le quote q true = omega (arith, le (q && starts_quote rest) (toggle a (starts_quote rest)))
    go le quote q false = omega (arith, le false (escaped a))
    go le backslash q even = omega (arith, le false (slash a))
    go le other q even = omega (arith, le false (literal c a))

first_le :
    (c : ℕ) (rest : Text)
    → is_blank (char_of c) ≡ false
    → length (split_windows_argument (c ∷ rest)).1 ≤ length rest
unfolding split_windows_argument argument_loop
first_le c rest solid = elim (Char-cases (char_of c)) [
  | inl (inl e) ↦ absurd (true≢false (sym (ap is_blank e) ∙ solid))
  | inl (inr e) ↦ rw (e, argument_loop) (argument_loop_le false (literal c new_argument) rest)
  | inr (inl e) ↦
      rw (e, argument_loop) (argument_loop_le false (toggle new_argument (starts_quote rest)) rest)
  | inr (inr e) ↦ rw (e, argument_loop) (argument_loop_le false (slash new_argument) rest)
]

split_loop_ends :
    (fuel : ℕ) (s : Text)
    → length s ≤ fuel
    → (arguments : List Text) × (split_loop fuel s ≡ some arguments)
unfolding split_loop
split_loop_ends fuel [] le = ([], refl)
split_loop_ends zero (c ∷ s) le = absurd (omega arith)
split_loop_ends (suc fuel) (c ∷ s) le = elim (Bool-cases (is_blank (char_of c))) [
  | inl e ↦ rw (e, split_loop) (split_loop_ends fuel s (omega arith))
  | inr e ↦
      let (argument, left) = split_windows_argument (c ∷ s) in
      let (arguments, run) = split_loop_ends fuel left (omega (arith, first_le c s e)) in
      (argument ∷ arguments, rw (e, split_loop) (rw run refl))
]

-- Every command line is split: neither loop is cut short by the rounds that the model gives it.
pub split_windows_command_line_ends :
    (command : Text)
    → (arguments : List Text) × (split_windows_command_line command ≡ some arguments)
unfolding split_windows_command_line
split_windows_command_line_ends command = split_loop_ends (length command) command (omega arith)
