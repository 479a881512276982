-- ===== src/Argv/Posix/RoundTrip.antt =====
-- A command line that is quoted for a POSIX shell, split.
use nvim_dot_files.Prelude.{
  ℕ, ◌≡◌, refl, sym, ap, ◌∙◌, Bool, true, false, ◌&&◌, List, [], ◌∷◌, ◌++◌, append-nil,
  append_assoc, if◌then◌else◌, ◌==◌, Eq-number, beq_eq, Bool-cases, inl, inr, arith,
}
use nvim_dot_files.Prelude.Texts.{Text}
use nvim_dot_files.Prelude.Result.{Result, ok}
use nvim_dot_files.Argv.Posix.{
  ArgvFault, between, word, within, emit, emit_if, read_tokens, split_posix_command_line,
}

-- `'"'"'`: a single quotation mark leaves the single quotes and stands in double ones.
unfoldable pub put_single : Text → Text
put_single [] = []
put_single (c ∷ t) = if c == 39 then 39 ∷ b'"' ∷ 39 ∷ b'"' ∷ 39 ∷ put_single t else c ∷ put_single t

unfoldable pub put_argument : Text → Text
put_argument t = 39 ∷ put_single t ++ 39 ∷ []

-- The arguments, each in single quotes, with a space after each.
unfoldable pub put_arguments : List Text → Text
put_arguments [] = []
put_arguments (t ∷ ts) = put_argument t ++ b' ' ∷ put_arguments ts

read-within :
    (c : ℕ) (token rest : Text) (quoted : Bool)
    → (c == 39) ≡ false
    → read_tokens (within 39) token quoted (c ∷ rest)
      ≡ read_tokens (within 39) (token ++ c ∷ []) true rest
unfolding read_tokens
read-within c token rest quoted e =
    let keeps : (c == 92 && false) ≡ false = ground arith in
    rw (e, read_tokens) (rw (keeps, read_tokens) refl)

put_single_plain : (c : ℕ) (t : Text) → (c == 39) ≡ false → put_single (c ∷ t) ≡ c ∷ put_single t
unfolding put_single
put_single_plain c t e = rw (e, put_single) refl

read-put_single :
    (t token rest : Text) (quoted : Bool)
    → read_tokens (within 39) token quoted (put_single t ++ 39 ∷ rest)
      ≡ read_tokens word (token ++ t) true rest
unfolding put_single read_tokens
read-put_single [] token rest quoted =
    ap (λ (u : Text). read_tokens word u true rest) (sym (append-nil token))
read-put_single (c ∷ t) token rest quoted = elim (Bool-cases (c == 39)) [
  | inl e ↦ rw e (
      read-put_single t (token ++ 39 ∷ []) rest true
      ∙ ap (λ (u : Text). read_tokens word u true rest)
          (append_assoc token (39 ∷ []) t ∙ ap (λ (d : ℕ). token ++ d ∷ t) (sym (beq_eq c 39 e))))
  | inr e ↦
      ap (λ (u : Text). read_tokens (within 39) token quoted (u ++ 39 ∷ rest))
        (put_single_plain c t e)
      ∙ read-within c token (put_single t ++ 39 ∷ rest) quoted e
      ∙ read-put_single t (token ++ c ∷ []) rest true
      ∙ ap (λ (u : Text). read_tokens word u true rest) (append_assoc token (c ∷ []) t)
]

emit_if_quoted : (t : Text) (r : Result ArgvFault (List Text)) → emit_if t true r ≡ emit t r
emit_if_quoted [] r = refl
emit_if_quoted (c ∷ t) r = refl

read-put_argument :
    (t rest : Text)
    → read_tokens between [] false (put_argument t ++ b' ' ∷ rest)
      ≡ emit t (read_tokens between [] false rest)
unfolding put_argument read_tokens
read-put_argument t rest =
    ap (λ (u : Text). read_tokens (within 39) [] false u)
      (append_assoc (put_single t) (39 ∷ []) (b' ' ∷ rest))
    ∙ read-put_single t [] (b' ' ∷ rest) false
    ∙ emit_if_quoted t (read_tokens between [] false rest)

read-put_arguments : (ts : List Text) → read_tokens between [] false (put_arguments ts) ≡ ok ts
unfolding put_arguments
read-put_arguments [] = unfold read_tokens in refl
read-put_arguments (t ∷ ts) =
    read-put_argument t (put_arguments ts) ∙ ap (emit t) (read-put_arguments ts)

-- Arguments that are quoted for a POSIX shell come back from `shlex.split` as they were, the empty ones
-- included.
pub split_posix_command_line-put_arguments :
    (ts : List Text) → split_posix_command_line (put_arguments ts) ≡ ok ts
unfolding split_posix_command_line
split_posix_command_line-put_arguments ts = read-put_arguments ts
