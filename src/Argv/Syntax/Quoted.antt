-- ===== src/Argv/Syntax/Quoted.antt =====
-- A command line of quoted arguments, and the guess of `_looks_posix_quoted`.
use nvim_dot_files.Prelude.{
  ℕ, zero, suc, ◌+◌, ◌≡◌, ◌⊎◌, refl, ap, ◌∙◌, true, false, ◌&&◌, List, [], ◌∷◌, ◌++◌, append_assoc,
  Option, none, ◌==◌, Eq-number, All, Bool-cases, inl, inr, arith,
}
use nvim_dot_files.Prelude.Texts.{Text}
use nvim_dot_files.Prelude.Result.{ok}
use nvim_dot_files.Argv.Windows.{blank, other, char_of, slashes}
use nvim_dot_files.Argv.Windows.Runs.{
  put_body, Char-cases, put_body_within, put_body_quote, put_body_slash,
}
use nvim_dot_files.Argv.Windows.RoundTrip.{
  Word, IsWord, put_quoted, put_word, put_line, put_rest, spaces, words_of,
  split_windows_command_line-put_line,
}
use nvim_dot_files.Argv.Syntax.{
  double_escape, looks_loop, looks_posix_quoted, Entry, syntax_from_provenance, command_syntax,
  windows, split_command_line,
}

looks-pair : (t : Text) → looks_loop true false (92 ∷ 92 ∷ t) ≡ looks_loop true false t
unfolding looks_loop double_escape
looks-pair t = refl

looks-close : (t : Text) → looks_loop true false (b'"' ∷ t) ≡ looks_loop false false t
unfolding looks_loop
looks-close t = refl

-- Within double quotes, backslashes go in pairs.
looks-pairs :
    (n : ℕ) (s : Text) → looks_loop true false (slashes (n + n) ++ s) ≡ looks_loop true false s
looks-pairs zero s = refl
looks-pairs (suc n) s =
    let two : suc n + suc n ≡ suc (suc (n + n)) = omega arith in
    ap (λ (m : ℕ). looks_loop true false (slashes m ++ s)) two
    ∙ looks-pair (slashes (n + n) ++ s)
    ∙ looks-pairs n s

looks-escaped : (s : Text) → looks_loop true false (92 ∷ b'"' ∷ s) ≡ looks_loop true false s
unfolding looks_loop double_escape
looks-escaped s = refl

not_mark :
    (c : ℕ)
    → (char_of c ≡ blank) ⊎ (char_of c ≡ other)
    → ((c == 92) ≡ false) × ((c == b'"') ≡ false)
not_mark c (inl e) = (ground arith, ground arith)
not_mark c (inr e) = (ground arith, ground arith)

looks-char :
    (c : ℕ) (s : Text)
    → (char_of c ≡ blank) ⊎ (char_of c ≡ other)
    → looks_loop true false (c ∷ s) ≡ looks_loop true false s
unfolding looks_loop
looks-char c s h =
    let (slash, mark) = not_mark c h in
    let single : (c == 39 && false) ≡ false = ground arith in
    rw (slash, looks_loop) (rw (mark, looks_loop) (rw (single, looks_loop) refl))

looks-slash_char :
    (c : ℕ) (s : Text)
    → (char_of c ≡ blank) ⊎ (char_of c ≡ other)
    → looks_loop true false (92 ∷ c ∷ s) ≡ looks_loop true false s
unfolding looks_loop
looks-slash_char c s h = elim (Bool-cases (double_escape (c ∷ s))) [
  | inl e ↦ rw (e, looks_loop) refl
  | inr e ↦ rw (e, looks_loop) (looks-char c s h)
]

looks-run :
    (n c : ℕ) (s : Text)
    → (char_of c ≡ blank) ⊎ (char_of c ≡ other)
    → looks_loop true false (slashes n ++ c ∷ s) ≡ looks_loop true false s
looks-run zero c s h = looks-char c s h
looks-run (suc zero) c s h = looks-slash_char c s h
looks-run (suc (suc n)) c s h = looks-pair (slashes n ++ c ∷ s) ∙ looks-run n c s h

looks-put_body :
    (n : ℕ) (t rest : Text)
    → looks_loop true false (put_body n t ++ b'"' ∷ rest) ≡ looks_loop false false rest
looks-put_body n [] rest = unfold put_body in looks-pairs n (b'"' ∷ rest) ∙ looks-close rest
looks-put_body n (c ∷ t) rest = elim (Char-cases (char_of c)) [
  | inl h ↦
      ap (λ (u : Text). looks_loop true false (u ++ b'"' ∷ rest)) (put_body_within n c t h)
      ∙ ap (λ (u : Text). looks_loop true false u)
          (append_assoc (slashes n) (c ∷ put_body 0 t) (b'"' ∷ rest))
      ∙ looks-run n c (put_body 0 t ++ b'"' ∷ rest) h
      ∙ looks-put_body 0 t rest
  | inr (inl q) ↦
      ap (λ (u : Text). looks_loop true false (u ++ b'"' ∷ rest)) (put_body_quote n c t q)
      ∙ ap (λ (u : Text). looks_loop true false u)
          (append_assoc (slashes (n + n)) (92 ∷ b'"' ∷ put_body 0 t) (b'"' ∷ rest))
      ∙ looks-pairs n (92 ∷ b'"' ∷ (put_body 0 t ++ b'"' ∷ rest))
      ∙ looks-escaped (put_body 0 t ++ b'"' ∷ rest)
      ∙ looks-put_body 0 t rest
  | inr (inr b) ↦
      ap (λ (u : Text). looks_loop true false (u ++ b'"' ∷ rest)) (put_body_slash n c t b)
      ∙ looks-put_body (suc n) t rest
]

looks-spaces :
    (n : ℕ) (s : Text) → looks_loop false false (spaces n ++ s) ≡ looks_loop false false s
unfolding looks_loop
looks-spaces zero s = refl
looks-spaces (suc n) s = looks-spaces n s

looks-put_quoted :
    (t rest : Text) → looks_loop false false (put_quoted t ++ rest) ≡ looks_loop false false rest
looks-put_quoted t rest =
    unfold put_quoted looks_loop in
    ap (λ (u : Text). looks_loop true false u) (append_assoc (put_body 0 t) (b'"' ∷ []) rest)
    ∙ looks-put_body 0 t rest

abbrev pub AllQuoted : List Word → Type 0
AllQuoted ws = All (λ (w : Word). w.quoted ≡ true) ws

looks-put_word :
    (w : Word) (rest : Text)
    → w.quoted ≡ true
    → looks_loop false false (put_word w ++ rest) ≡ looks_loop false false rest
looks-put_word w rest q = unfold put_word in rw q (looks-put_quoted w.text rest)

looks-put_rest : (ws : List Word) → AllQuoted ws → looks_loop false false (put_rest ws) ≡ false
looks-put_rest [] h = unfold put_rest looks_loop in refl
looks-put_rest (w ∷ ws) (q, h) =
    put_rest_cons w ws
    ∙ looks-spaces w.before (put_word w ++ put_rest ws)
    ∙ looks-put_word w (put_rest ws) q
    ∙ looks-put_rest ws h
  where
    put_rest_cons :
        (v : Word) (vs : List Word)
        → looks_loop false false (put_rest (v ∷ vs))
          ≡ looks_loop false false (spaces v.before ++ (put_word v ++ put_rest vs))
    put_rest_cons v vs = unfold put_rest looks_loop in refl

looks-put_line : (ws : List Word) → AllQuoted ws → looks_posix_quoted (put_line ws) ≡ false
unfolding looks_posix_quoted put_line
looks-put_line [] h = unfold looks_loop in refl
looks-put_line (w ∷ ws) (q, h) =
    looks-spaces w.before (put_word w ++ put_rest ws)
    ∙ looks-put_word w (put_rest ws) q
    ∙ looks-put_rest ws h

quoted-IsWord : (ws : List Word) → AllQuoted ws → All IsWord ws
quoted-IsWord [] h = tt
quoted-IsWord (w ∷ ws) (q, h) = (inl q, quoted-IsWord ws h)

syntax-put_line :
    (entry : Option Entry) (ws : List Word)
    → syntax_from_provenance entry ≡ none
    → AllQuoted ws
    → command_syntax true entry (put_line ws) ≡ windows
unfolding command_syntax
syntax-put_line entry ws unknown quoted =
    rw (unknown, command_syntax) (rw (looks-put_line ws quoted) refl)

-- On Windows, without a hint in the entry, a command line of quoted arguments is never taken for a POSIX
-- one, whatever the arguments hold: it is split by the rules of Windows, into just those arguments.
pub split_command_line-put_line :
    (entry : Option Entry) (ws : List Word)
    → syntax_from_provenance entry ≡ none
    → AllQuoted ws
    → split_command_line true (put_line ws) entry ≡ ok (words_of ws)
unfolding split_command_line
split_command_line-put_line entry ws unknown quoted =
    rw (syntax-put_line entry ws unknown quoted, split_command_line)
      (rw (split_windows_command_line-put_line ws (quoted-IsWord ws quoted)) refl)
