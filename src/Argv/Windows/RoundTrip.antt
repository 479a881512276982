-- ===== src/Argv/Windows/RoundTrip.antt =====
-- A command line that is spelled by the rules of Windows, split.
use nvim_dot_files.Prelude.{
  ℕ, zero, suc, ◌+◌, ◌-◌, ◌≤◌, ◌≡◌, ◌≢◌, ◌⊎◌, refl, sym, ap, ◌∙◌, Bool, true, false, List, [], ◌∷◌,
  ◌++◌, append-nil, append_assoc, map, some, length, length-append, if◌then◌else◌, Eq-number, All,
  inl, inr, arith,
}
use nvim_dot_files.Prelude.Texts.{Text}
use nvim_dot_files.Argv.Windows.{
  blank, backslash, other, char_of, slashes, starts_quote, argument_loop, split_windows_argument,
  cons_to, is_blank, split_loop, split_windows_command_line,
}
use nvim_dot_files.Argv.Windows.Runs.{argument, loop-slash, loop-other, put_body, loop-put_body}

-- What follows an argument: nothing, or a blank and the rest.
data Ends : Text → Text → Type 0 where
  at_end : Ends [] []
  at_blank : (c : ℕ) (r : Text) → char_of c ≡ blank → Ends (c ∷ r) r

loop-Ends :
    (v rest r : Text) (n : ℕ)
    → Ends rest r
    → argument_loop false (argument v false n) rest ≡ (v ++ slashes n, r)
unfolding argument_loop
loop-Ends v rest r n at_end = refl
loop-Ends v rest r n (at_blank c s e) = rw (e, argument_loop) refl

Ends-unquoted : (rest r : Text) → Ends rest r → starts_quote rest ≡ false
Ends-unquoted rest r at_end = refl
Ends-unquoted rest r (at_blank c s e) = ground arith

-- A character that may stand in an argument without quotes.
abbrev pub IsPlain : ℕ → Type 0
IsPlain c = (char_of c ≡ other) ⊎ (char_of c ≡ backslash)

slashes_append : (n : ℕ) (t : Text) → slashes n ++ 92 ∷ t ≡ slashes (suc n) ++ t
slashes_append zero t = refl
slashes_append (suc n) t = ap (λ (u : Text). 92 ∷ u) (slashes_append n t)

plain_slash : (c : ℕ) → char_of c ≡ backslash → c ≡ 92
plain_slash c e = ground arith

loop-plain :
    (t v rest r : Text) (n : ℕ)
    → All IsPlain t
    → Ends rest r
    → argument_loop false (argument v false n) (t ++ rest) ≡ (v ++ (slashes n ++ t), r)
loop-plain [] v rest r n h e =
    loop-Ends v rest r n e ∙ ap (λ (u : Text). (v ++ u, r)) (sym (append-nil (slashes n)))
loop-plain (c ∷ t) v rest r n (inl p, h) e =
    loop-other (argument v false n) c (t ++ rest) p
    ∙ loop-plain t (v ++ slashes n ++ c ∷ []) rest r 0 h e
    ∙ ap (λ (u : Text). (u, r))
        (append_assoc (v ++ slashes n) (c ∷ []) t ∙ append_assoc v (slashes n) (c ∷ t))
loop-plain (c ∷ t) v rest r n (inr p, h) e =
    loop-slash (argument v false n) c (t ++ rest) p
    ∙ loop-plain t v rest r (suc n) h e
    ∙ ap (λ (u : Text). (v ++ u, r))
        (sym (slashes_append n t) ∙ ap (λ (d : ℕ). slashes n ++ d ∷ t) (sym (plain_slash c p)))

-- An argument of a line: the blanks before it, its text, and whether it is put in quotes.
pub record Word : Type 0 where
  pub before : ℕ
  pub quoted : Bool
  pub text : Text

unfoldable pub put_quoted : Text → Text
put_quoted t = b'"' ∷ put_body 0 t ++ b'"' ∷ []

unfoldable pub put_word : Word → Text
put_word w = if w.quoted then put_quoted w.text else w.text

-- A text without quotes is not empty and has no blanks and quotation marks; its backslashes are plain.
abbrev pub IsWord : Word → Type 0
IsWord w = (w.quoted ≡ true) ⊎ ((w.text ≢ []) × All IsPlain w.text × (w.quoted ≡ false))

abbrev pub spaces : ℕ → Text
spaces zero = []
spaces (suc n) = b' ' ∷ spaces n

-- The words, with a space and the blanks of the next between two.
unfoldable mutual
  pub put_line : List Word → Text
  put_line [] = []
  put_line (w ∷ ws) = spaces w.before ++ (put_word w ++ put_rest ws)

  pub put_rest : List Word → Text
  put_rest [] = []
  put_rest (w ∷ ws) = b' ' ∷ (spaces w.before ++ (put_word w ++ put_rest ws))

Ends-put_rest : (ws : List Word) → Ends (put_rest ws) (put_line ws)
unfolding put_line put_rest
Ends-put_rest [] = at_end
Ends-put_rest (w ∷ ws) = at_blank b' ' (put_line (w ∷ ws)) refl

split-put_quoted :
    (t rest r : Text) → Ends rest r → split_windows_argument (put_quoted t ++ rest) ≡ (t, r)
unfolding split_windows_argument put_quoted argument_loop
split-put_quoted t rest r e =
    ap (λ (u : Text). argument_loop false (argument [] true 0) u)
      (append_assoc (put_body 0 t) (b'"' ∷ []) rest)
    ∙ loop-put_body 0 t [] rest (Ends-unquoted rest r e)
    ∙ loop-Ends t rest r 0 e
    ∙ ap (λ (u : Text). (u, r)) (append-nil t)

split-put_word :
    (w : Word) (rest r : Text)
    → IsWord w
    → Ends rest r
    → split_windows_argument (put_word w ++ rest) ≡ (w.text, r)
unfolding put_word
split-put_word w rest r (inl q) e = rw q (split-put_quoted w.text rest r e)
split-put_word w rest r (inr (some_text, plain, q)) e =
    rw q (unfold split_windows_argument in loop-plain w.text [] rest r 0 plain e)

plain_not-blank : (c : ℕ) → IsPlain c → is_blank (char_of c) ≡ false
plain_not-blank c (inl e) = rw e refl
plain_not-blank c (inr e) = rw e refl

starts_plain :
    (t : Text)
    → t ≢ []
    → All IsPlain t
    → (c : ℕ) × (s : Text) × (t ≡ c ∷ s) × (is_blank (char_of c) ≡ false)
starts_plain [] some_text plain = absurd (some_text refl)
starts_plain (c ∷ t) some_text (p, plain) = (c, t, refl, plain_not-blank c p)

-- A word begins with a character that is no blank.
starts_word :
    (w : Word)
    → IsWord w
    → (c : ℕ) × (s : Text) × (put_word w ≡ c ∷ s) × (is_blank (char_of c) ≡ false)
unfolding put_word put_quoted
starts_word w (inl q) = (b'"', put_body 0 w.text ++ b'"' ∷ [], rw q refl, refl)
starts_word w (inr (some_text, plain, q)) = rw q (starts_plain w.text some_text plain)

split_loop-word :
    (fuel : ℕ) (c : ℕ) (s argument left : Text)
    → is_blank (char_of c) ≡ false
    → split_windows_argument (c ∷ s) ≡ (argument, left)
    → split_loop (suc fuel) (c ∷ s) ≡ cons_to argument (split_loop fuel left)
unfolding split_loop
split_loop-word fuel c s argument left b e = rw (b, split_loop) (rw e refl)

split_loop-spaces :
    (n fuel : ℕ) (s : Text) → split_loop (n + fuel) (spaces n ++ s) ≡ split_loop fuel s
unfolding split_loop
split_loop-spaces zero fuel s = ap (λ (m : ℕ). split_loop m s) (omega arith)
split_loop-spaces (suc n) fuel s =
    let more : suc n + fuel ≡ suc (n + fuel) = omega arith in
    ap (λ (m : ℕ). split_loop m (b' ' ∷ (spaces n ++ s))) more ∙ split_loop-spaces n fuel s

length-spaces : (n : ℕ) → length (spaces n) ≡ n
length-spaces zero = refl
length-spaces (suc n) = ap suc (length-spaces n)

abbrev pub words_of : List Word → List Text
words_of ws = map (λ (w : Word). w.text) ws

length-put_rest : (ws : List Word) → length (put_line ws) ≤ length (put_rest ws)
unfolding put_line put_rest
length-put_rest [] = omega arith
length-put_rest (w ∷ ws) = omega arith

split_loop-put_line :
    (ws : List Word) (fuel : ℕ)
    → All IsWord ws
    → length (put_line ws) ≤ fuel
    → split_loop fuel (put_line ws) ≡ some (words_of ws)
unfolding put_line
split_loop-put_line [] fuel h le = unfold split_loop in refl
split_loop-put_line (w ∷ ws) fuel (here, h) le =
    let (c, s, starts, solid) = starts_word w here in
    let rest : Text = put_rest ws in
    let k : ℕ = fuel - w.before - 1 in
    let size : length (spaces w.before ++ (put_word w ++ rest))
        ≡ w.before + length (put_word w ++ rest) =
      length-append (spaces w.before) (put_word w ++ rest)
      ∙ ap (λ (n : ℕ). n + length (put_word w ++ rest)) (length-spaces w.before) in
    let long : length (put_word w ++ rest) ≡ suc (length (s ++ rest)) =
      ap (λ (t : Text). length (t ++ rest)) starts in
    let tail_size : length (s ++ rest) ≡ length s + length rest = length-append s rest in
    let rounds : fuel ≡ w.before + suc k = omega arith in
    let read : split_windows_argument (c ∷ (s ++ rest)) ≡ (w.text, put_line ws) =
      ap (λ (t : Text). split_windows_argument (t ++ rest)) (sym starts)
      ∙ split-put_word w rest (put_line ws) here (Ends-put_rest ws) in
    ap (λ (m : ℕ). split_loop m (spaces w.before ++ (put_word w ++ rest))) rounds
    ∙ split_loop-spaces w.before (suc k) (put_word w ++ rest)
    ∙ ap (λ (t : Text). split_loop (suc k) (t ++ rest)) starts
    ∙ split_loop-word k c (s ++ rest) w.text (put_line ws) solid read
    ∙ ap (cons_to w.text) (split_loop-put_line ws k h (omega (arith, length-put_rest ws)))

-- A line that spells its arguments, each in quotes with its marks and backslashes escaped or plain, with
-- blanks between them, is split into just those arguments.
pub split_windows_command_line-put_line :
    (ws : List Word) → All IsWord ws → split_windows_command_line (put_line ws) ≡ some (words_of ws)
unfolding split_windows_command_line
split_windows_command_line-put_line ws h =
    split_loop-put_line ws (length (put_line ws)) h (omega arith)
