-- ===== src/TierMerge/Tokens/Written.antt =====
-- What is no code in a C++ text, as it is written, and that the patterns of `_TOKENS` find its end.
use nvim_dot_files.Prelude.{
  ℕ, zero, suc, ◌≡◌, ◌≤◌, ◌∙◌, refl, sym, ap, true, false, ◌&&◌, List, [], ◌∷◌, ◌++◌, append_assoc,
  some, All, nat_eq, length, length-append, drop, drop-append, arith, Eq-number,
}
use nvim_dot_files.Prelude.Texts.{Text, codes}
use nvim_dot_files.Prelude.Sets.{mem}
use nvim_dot_files.ShardSeed
use nvim_dot_files.ShardSeed.{contains}
use nvim_dot_files.TierMerge.Tokens.{
  taking, line, starts_with, until, delimiter, raw_string, quoted,
}

-- A character of a literal: one that stands for itself, or one behind a backslash.
pub data Sign : Type 0 where
  itself escaped : ℕ → Sign

abbrev pub write_signs : List Sign → Text
write_signs [] = []
write_signs (itself c ∷ signs) = c ∷ write_signs signs
write_signs (escaped c ∷ signs) = 92 ∷ c ∷ write_signs signs

-- What a C++ text holds that is no code: `//` to the end of the line, `/* */`, `R"name(body)name"`, and
-- a literal between quotation marks or apostrophes.
pub data Ignored : Type 0 where
  line_of block_of : Text → Ignored
  raw_of : Text → Text → Ignored
  string_of character_of : List Sign → Ignored

abbrev pub write : Ignored → Text
write (line_of body) = codes "//" ++ (body ++ 10 ∷ [])
write (block_of body) = codes "/*" ++ (body ++ codes "*/")
write (raw_of name body) = codes "R" ++ 34 ∷ (name ++ 40 ∷ (body ++ 41 ∷ (name ++ 34 ∷ [])))
write (string_of signs) = 34 ∷ (write_signs signs ++ 34 ∷ [])
write (character_of signs) = 39 ∷ (write_signs signs ++ 39 ∷ [])

-- The mark does not stand in the body, and does not begin in it either: the first one is the one behind it.
abbrev pub IsClosedBy : Text → ℕ → Text → Type 0
IsClosedBy front last body = contains (front ++ last ∷ []) (body ++ front) ≡ false

abbrev pub IsSign : ℕ → Sign → Type 0
IsSign mark (itself c) = (nat_eq c mark ≡ false) × (nat_eq c 92 ≡ false)
IsSign mark (escaped c) = Unit

-- A character of a raw string's delimiter: no blank, parenthesis, backslash, tab, return or line feed.
abbrev pub IsDelimiter : ℕ → Type 0
IsDelimiter c = mem c (32 ∷ 40 ∷ 41 ∷ 92 ∷ 9 ∷ 13 ∷ 10 ∷ []) ≡ false

abbrev pub IsIgnored : Ignored → Type 0
IsIgnored (line_of body) = mem 10 body ≡ false
IsIgnored (block_of body) = IsClosedBy (codes "*") b'/' body
IsIgnored (raw_of name body) =
    All IsDelimiter name × (length name ≤ 16) × IsClosedBy (41 ∷ name) 34 body
IsIgnored (string_of signs) = All (IsSign 34) signs
IsIgnored (character_of signs) = All (IsSign 39) signs

pub line-body :
    (body rest : Text) → mem 10 body ≡ false → line (body ++ 10 ∷ rest) ≡ (body, 10 ∷ rest)
unfolding line mem
line-body [] rest h = refl
line-body (c ∷ body) rest h =
    let other : nat_eq c 10 ≡ false = ground arith in
    let later : mem 10 body ≡ false = ground arith in rw (other, line-body body rest later) refl

-- The recogniser of literals, a character at a time.
module _ (mark : ℕ) where
  quoted_itself :
      (c : ℕ) (t : Text)
      → nat_eq c mark ≡ false
      → nat_eq c 92 ≡ false
      → quoted mark (c ∷ t) ≡ taking (c ∷ []) (quoted mark t)
  unfolding quoted
  quoted_itself c [] a b = rw a refl
  quoted_itself c (d ∷ t) a b = rw (a, b) refl

  quoted_escaped :
      (c : ℕ) (t : Text)
      → nat_eq 92 mark ≡ false
      → quoted mark (92 ∷ c ∷ t) ≡ taking (92 ∷ c ∷ []) (quoted mark t)
  unfolding quoted
  quoted_escaped c t m = rw m refl

  quoted_end : (t : Text) → quoted mark (mark ∷ t) ≡ some (mark ∷ [], t)
  unfolding quoted
  quoted_end [] = let same : nat_eq mark mark ≡ true = ground arith in rw same refl
  quoted_end (d ∷ t) = let same : nat_eq mark mark ≡ true = ground arith in rw same refl

  pub quoted-signs :
      (signs : List Sign) (rest : Text)
      → nat_eq 92 mark ≡ false
      → All (IsSign mark) signs
      → quoted mark (write_signs signs ++ mark ∷ rest) ≡ some (write_signs signs ++ mark ∷ [], rest)
  quoted-signs [] rest m h = quoted_end rest
  quoted-signs (itself c ∷ signs) rest m ((a, b), h) =
      rw (quoted_itself c (write_signs signs ++ mark ∷ rest) a b)
        (rw (quoted-signs signs rest m h) refl)
  quoted-signs (escaped c ∷ signs) rest m (u, h) =
      rw (quoted_escaped c (write_signs signs ++ mark ∷ rest) m)
        (rw (quoted-signs signs rest m h) refl)

-- Whether a text starts with another is seen on the characters of the other's number.
starts_same :
    (p a b : Text) → length p ≤ length a → starts_with p (a ++ b) ≡ ShardSeed.starts_with p a
unfolding starts_with ShardSeed.starts_with
starts_same [] a b h = refl
starts_same (c ∷ p) [] b h = absurd (omega arith)
starts_same (c ∷ p) (d ∷ a) b h = ap (λ t. nat_eq c d && t) (starts_same p a b (omega arith))

starts_itself : (p t : Text) → starts_with p (p ++ t) ≡ true
unfolding starts_with
starts_itself [] t = refl
starts_itself (c ∷ p) t = ground (arith, starts_itself p t)

until_hit :
    (mark : Text) (c : ℕ) (cs : Text)
    → starts_with mark (c ∷ cs) ≡ true
    → until mark (c ∷ cs) ≡ some (mark, drop (length mark) (c ∷ cs))
unfolding until
until_hit mark c cs h = rw h refl

until_miss :
    (mark : Text) (c : ℕ) (cs : Text)
    → starts_with mark (c ∷ cs) ≡ false
    → until mark (c ∷ cs) ≡ taking (c ∷ []) (until mark cs)
unfolding until
until_miss mark c cs h = rw h refl

until_here :
    (front : Text) (last : ℕ) (rest : Text)
    → until (front ++ last ∷ []) (front ++ last ∷ rest) ≡ some (front ++ last ∷ [], rest)
until_here front last rest =
    rw (sym (append_assoc front (last ∷ []) rest))
      (go (front ++ last ∷ []) (ground (arith, length-append front (last ∷ []))))
  where
    go : (mark : Text) → 1 ≤ length mark → until mark (mark ++ rest) ≡ some (mark, rest)
    go [] h = absurd (omega arith)
    go (m ∷ mark) h =
        until_hit (m ∷ mark) m (mark ++ rest) (starts_itself (m ∷ mark) rest)
        ∙ ap (λ t. some (m ∷ mark, t)) (drop-append (m ∷ mark) rest)

-- Before the first closing mark no mark starts.
closed_later :
    (front : Text) (last c : ℕ) (body : Text)
    → IsClosedBy front last (c ∷ body)
    → (ShardSeed.starts_with (front ++ last ∷ []) (c ∷ body ++ front) ≡ false)
      × IsClosedBy front last body
unfolding contains
closed_later front last c body h = (ground arith, ground arith)

-- The closing mark is found where it stands for the first time.
pub until-IsClosedBy :
    (front : Text) (last : ℕ) (body rest : Text)
    → IsClosedBy front last body
    → until (front ++ last ∷ []) (body ++ (front ++ last ∷ rest))
      ≡ some (body ++ (front ++ last ∷ []), rest)
until-IsClosedBy front last [] rest h = until_here front last rest
until-IsClosedBy front last (c ∷ body) rest h =
    let (not_here, closed) = closed_later front last c body h in
    let mark = front ++ last ∷ [] in
    let short : length mark ≤ length (c ∷ body ++ front) =
      omega (arith, length-append front (last ∷ []), length-append (c ∷ body) front) in
    let missed : starts_with mark (c ∷ (body ++ (front ++ last ∷ rest))) ≡ false =
      ap (starts_with mark) (sym (append_assoc (c ∷ body) front (last ∷ rest)))
      ∙ starts_same mark (c ∷ body ++ front) (last ∷ rest) short
      ∙ not_here in
    until_miss mark c (body ++ (front ++ last ∷ rest)) missed
    ∙ ap (taking (c ∷ [])) (until-IsClosedBy front last body rest closed)

opens_none : (c : ℕ) → IsDelimiter c → nat_eq c 40 ≡ false
unfolding mem
opens_none c h = ground arith

delimiter-IsDelimiter :
    (n : ℕ) (name rest : Text)
    → length name ≤ n
    → All IsDelimiter name
    → delimiter n (name ++ 40 ∷ rest) ≡ some (name, rest)
unfolding delimiter
delimiter-IsDelimiter zero [] rest l h = refl
delimiter-IsDelimiter (suc n) [] rest l h = refl
delimiter-IsDelimiter zero (c ∷ name) rest l h = absurd (omega arith)
delimiter-IsDelimiter (suc n) (c ∷ name) rest l (here, h) =
    rw (here, opens_none c here) (rw (delimiter-IsDelimiter n name rest (omega arith) h) refl)

pub raw_string-IsClosedBy :
    (name body rest : Text)
    → All IsDelimiter name
    → length name ≤ 16
    → IsClosedBy (41 ∷ name) 34 body
    → raw_string (name ++ 40 ∷ (body ++ 41 ∷ (name ++ 34 ∷ rest)))
      ≡ some (name ++ 40 ∷ (body ++ 41 ∷ (name ++ 34 ∷ [])), rest)
unfolding raw_string
raw_string-IsClosedBy name body rest d l h =
    rw (delimiter-IsDelimiter 16 name (body ++ 41 ∷ (name ++ 34 ∷ rest)) l d, raw_string)
      (rw (until-IsClosedBy (41 ∷ name) 34 body rest h)
        (ap (λ t. some (t, rest)) (append_assoc name (40 ∷ []) (body ++ 41 ∷ (name ++ 34 ∷ [])))))
