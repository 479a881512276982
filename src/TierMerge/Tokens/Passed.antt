-- ===== src/TierMerge/Tokens/Passed.antt =====
-- Comments and literals at the front of a text leave no token.
use nvim_dot_files.Prelude.{◌≡◌, ◌∙◌, refl, ap, [], ◌∷◌, ◌++◌, append_assoc, none, some, Eq-number}
use nvim_dot_files.Prelude.Texts.{Text, codes}
use nvim_dot_files.TierMerge.Tokens.{
  Classes, line, until, raw_string, quoted, match_at, is_dropped, is_space, tokens,
}
use nvim_dot_files.TierMerge.Tokens.Literals.{tokens_drop, tokens_skip}
use nvim_dot_files.TierMerge.Tokens.Written.{
  Ignored, line_of, block_of, raw_of, string_of, character_of, write_signs, write, IsIgnored,
  line-body, quoted-signs, until-IsClosedBy, raw_string-IsClosedBy,
}

line_found :
    (classes : Classes) (tail : Text)
    → match_at classes (47 ∷ 47 ∷ tail) ≡ some (47 ∷ 47 ∷ (line tail).0, (line tail).1)
unfolding match_at line
line_found classes tail = refl

feed_missed : (classes : Classes) (rest : Text) → match_at classes (10 ∷ rest) ≡ none
unfolding match_at is_space
feed_missed classes rest = refl

block_found :
    (classes : Classes) (tail body rest : Text)
    → until (codes "*/") tail ≡ some (body, rest)
    → match_at classes (47 ∷ 42 ∷ tail) ≡ some (47 ∷ 42 ∷ body, rest)
unfolding match_at
block_found classes tail body rest h = rw h refl

raw_found :
    (classes : Classes) (tail body rest : Text)
    → raw_string tail ≡ some (body, rest)
    → match_at classes (82 ∷ 34 ∷ tail) ≡ some (82 ∷ 34 ∷ body, rest)
unfolding match_at
raw_found classes tail body rest h = rw h refl

double_found :
    (classes : Classes) (tail body rest : Text)
    → quoted 34 tail ≡ some (body, rest)
    → match_at classes (34 ∷ tail) ≡ some (34 ∷ body, rest)
unfolding match_at
double_found classes tail body rest h = rw h refl

single_found :
    (classes : Classes) (tail body rest : Text)
    → quoted 39 tail ≡ some (body, rest)
    → match_at classes (39 ∷ tail) ≡ some (39 ∷ body, rest)
unfolding match_at
single_found classes tail body rest h = rw h refl

-- What is no code at the front of a text leaves no token: a comment to the end of its line, a block comment
-- that the first `*/` closes, a raw string that the first parenthesis with its delimiter closes, and a
-- string or a character literal of plain and escaped characters.
pub tokens-write :
    (classes : Classes) (ignored : Ignored) (rest : Text)
    → IsIgnored ignored
    → tokens classes (write ignored ++ rest) ≡ tokens classes rest
unfolding is_dropped
tokens-write classes (line_of body) rest h =
    let found = line_found classes (body ++ 10 ∷ rest) in
    let ended = line-body body rest h in
    rw (append_assoc body (10 ∷ []) rest) (
      tokens_drop classes 47 (47 ∷ (body ++ 10 ∷ rest)) _ _ found refl
      ∙ ap (λ p. tokens classes p.1) ended
      ∙ tokens_skip classes 10 rest (feed_missed classes rest))
tokens-write classes (block_of body) rest h =
    let found = block_found classes _ _ rest (until-IsClosedBy (codes "*") b'/' body rest h) in
    rw (append_assoc body (codes "*/") rest) (tokens_drop classes 47 _ _ rest found refl)
tokens-write classes (raw_of name body) rest (d, l, h) =
    let found = raw_found classes _ _ rest (raw_string-IsClosedBy name body rest d l h) in
    let whole : (name ++ 40 ∷ (body ++ 41 ∷ (name ++ 34 ∷ []))) ++ rest
        ≡ name ++ 40 ∷ (body ++ 41 ∷ (name ++ 34 ∷ rest)) =
      append_assoc name (40 ∷ (body ++ 41 ∷ (name ++ 34 ∷ []))) rest
      ∙ ap (λ t. name ++ 40 ∷ t)
          (append_assoc body (41 ∷ (name ++ 34 ∷ [])) rest
            ∙ ap (λ t. body ++ 41 ∷ t) (append_assoc name (34 ∷ []) rest)) in
    rw whole (tokens_drop classes 82 _ _ rest found refl)
tokens-write classes (string_of signs) rest h =
    let found = double_found classes _ _ rest (quoted-signs 34 signs rest refl h) in
    rw (append_assoc (write_signs signs) (34 ∷ []) rest)
      (tokens_drop classes 34 _ _ rest found refl)
tokens-write classes (character_of signs) rest h =
    let found = single_found classes _ _ rest (quoted-signs 39 signs rest refl h) in
    rw (append_assoc (write_signs signs) (39 ∷ []) rest)
      (tokens_drop classes 39 _ _ rest found refl)
