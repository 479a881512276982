-- ===== src/TierMerge/Tokens/Literals.antt =====
-- Comments and literals leave no token, and the search has rounds enough.
use nvim_dot_files.Prelude.{
  ℕ, zero, suc, ◌≡◌, ◌<◌, ◌≤◌, ◌⊎◌, refl, ap, Bool, true, false, List, [], ◌∷◌, ◌++◌, none, some,
  nat_eq, nat_eq_iff, length, drop, length-drop, if◌then◌else◌, Bool-cases, inl, inr, arith,
  and_both,
}
use nvim_dot_files.Prelude.Texts.{Text, codes}
use nvim_dot_files.TierMerge.Tokens.{
  Classes, Match, taking, or_else, starts_with, line, until, delimiter, raw_string, quoted, word,
  line_comment, block_comment, raw_literal, literal, identifier, colons, single, match_at, find_all,
  is_dropped, tokens,
}

-- What follows a match is shorter than a text.
Shrinks : Match → ℕ → Type 0
Shrinks none n = Unit
Shrinks (some (taken, rest)) n = length rest < n

none-Shrinks : (n : ℕ) → Shrinks none n
unfolding Shrinks
none-Shrinks n = tt

some-Shrinks : (taken rest : Text) (n : ℕ) → length rest < n → Shrinks (some (taken, rest)) n
unfolding Shrinks
some-Shrinks taken rest n h = h

Shrinks-weaken : (m : Match) (n k : ℕ) → n ≤ k → Shrinks m n → Shrinks m k
unfolding Shrinks
Shrinks-weaken none n k le h = tt
Shrinks-weaken (some (taken, rest)) n k le h = omega arith

taking-Shrinks : (front : Text) (m : Match) (n : ℕ) → Shrinks m n → Shrinks (taking front m) n
unfolding Shrinks
taking-Shrinks front none n h = tt
taking-Shrinks front (some (taken, rest)) n h = h

or_else-Shrinks : (m k : Match) (n : ℕ) → Shrinks m n → Shrinks k n → Shrinks (or_else m k) n
or_else-Shrinks none k n p q = q
or_else-Shrinks (some (taken, rest)) k n p q = p

if-Shrinks :
    (b : Bool) (m k : Match) (n : ℕ) → Shrinks m n → Shrinks k n → Shrinks (if b then m else k) n
if-Shrinks true m k n p q = p
if-Shrinks false m k n p q = q

line-le : (text : Text) → length (line text).1 ≤ length text
unfolding line
line-le [] = omega arith
line-le (c ∷ cs) = ground (arith, line-le cs)

word-le : (classes : Classes) (text : Text) → length (word classes text).1 ≤ length text
unfolding word
word-le classes [] = omega arith
word-le classes (c ∷ cs) = ground (arith, word-le classes cs)

until-Shrinks : (m : ℕ) (mark text : Text) → Shrinks (until (m ∷ mark) text) (length text)
unfolding until starts_with
until-Shrinks m mark [] = none-Shrinks _
until-Shrinks m mark (c ∷ cs) =
    if-Shrinks _ _ _ _ (some-Shrinks _ _ _ (omega (arith, length-drop (length mark) cs))) (
      taking-Shrinks (c ∷ []) _ _
        (Shrinks-weaken (until (m ∷ mark) cs) _ _ (omega arith) (until-Shrinks m mark cs)))

delimiter-Shrinks : (n : ℕ) (text : Text) → Shrinks (delimiter n text) (length text)
unfolding delimiter
delimiter-Shrinks n [] = none-Shrinks _
delimiter-Shrinks zero (c ∷ cs) =
    if-Shrinks _ _ _ _ (some-Shrinks _ _ _ (omega arith)) (none-Shrinks _)
delimiter-Shrinks (suc n) (c ∷ cs) = if-Shrinks _ _ _ _ (some-Shrinks _ _ _ (omega arith)) (
    if-Shrinks _ _ _ _ (none-Shrinks _) (
      taking-Shrinks (c ∷ []) _ _
        (Shrinks-weaken (delimiter n cs) _ _ (omega arith) (delimiter-Shrinks n cs))))

after_some : (name rest : Text) (n : ℕ) → Shrinks (some (name, rest)) n → length rest ≤ n
unfolding Shrinks
after_some name rest n h = omega arith

raw_string-Shrinks : (text : Text) → Shrinks (raw_string text) (length text)
unfolding raw_string
raw_string-Shrinks text = after (delimiter 16 text) (delimiter-Shrinks 16 text)
  where
    after :
        (m : Match)
        → Shrinks m (length text)
        → Shrinks
            (elim m [
              | none ↦ none
              | some (name, rest) ↦ taking (name ++ 40 ∷ []) (until (41 ∷ name ++ 34 ∷ []) rest)
            ])
            (length text)
    after none h = none-Shrinks _
    after (some (name, rest)) h =
        taking-Shrinks (name ++ 40 ∷ []) _ _ (
          Shrinks-weaken _ _ _ (after_some name rest _ h) (until-Shrinks 41 (name ++ 34 ∷ []) rest))

quoted-Shrinks : (mark : ℕ) (text : Text) → Shrinks (quoted mark text) (length text)
unfolding quoted
quoted-Shrinks mark [] = none-Shrinks _
quoted-Shrinks mark (c ∷ []) =
    if-Shrinks _ _ _ _ (some-Shrinks _ _ _ (omega arith)) (none-Shrinks _)
quoted-Shrinks mark (c ∷ d ∷ ds) = if-Shrinks _ _ _ _ (some-Shrinks _ _ _ (omega arith)) (
    if-Shrinks _ _ _ _
      (taking-Shrinks (c ∷ d ∷ []) _ _
        (Shrinks-weaken (quoted mark ds) _ _ (omega arith) (quoted-Shrinks mark ds)))
      (taking-Shrinks (c ∷ []) _ _
        (Shrinks-weaken (quoted mark (d ∷ ds)) _ _ (omega arith) (quoted-Shrinks mark (d ∷ ds)))))

line_tail : (c : ℕ) (cs : Text) → nat_eq c 10 ≡ false → (line (c ∷ cs)).1 ≡ (line cs).1
unfolding line
line_tail c cs h = rw h refl

line_comment-Shrinks : (text : Text) → Shrinks (line_comment text) (length text)
unfolding line_comment starts_with
line_comment-Shrinks [] = none-Shrinks _
line_comment-Shrinks (c ∷ cs) = elim (Bool-cases (starts_with (codes "//") (c ∷ cs))) [
  | inr other ↦ rw other (none-Shrinks _)
  | inl here ↦
      let slash : c ≡ 47 = ground (arith, (nat_eq_iff 47 c).0 (and_both _ _ here).0) in
      let tail : (line (c ∷ cs)).1 ≡ (line cs).1 = line_tail c cs (ground arith) in
      rw here (
        some-Shrinks (line (c ∷ cs)).0 (line (c ∷ cs)).1 _
          (omega (arith, line-le cs, ap length tail)))
]

block_comment-Shrinks : (text : Text) → Shrinks (block_comment text) (length text)
unfolding block_comment
block_comment-Shrinks text =
    if-Shrinks _ _ _ _
      (taking-Shrinks (codes "/*") _ _ (
        Shrinks-weaken _ _ _ (omega (arith, length-drop 2 text))
          (until-Shrinks 42 (47 ∷ []) (drop 2 text))))
      (none-Shrinks _)

raw_literal-Shrinks : (text : Text) → Shrinks (raw_literal text) (length text)
unfolding raw_literal
raw_literal-Shrinks text =
    if-Shrinks _ _ _ _
      (taking-Shrinks (82 ∷ 34 ∷ []) _ _ (
        Shrinks-weaken _ _ _ (omega (arith, length-drop 2 text))
          (raw_string-Shrinks (drop 2 text))))
      (none-Shrinks _)

literal-Shrinks : (mark : ℕ) (text : Text) → Shrinks (literal mark text) (length text)
unfolding literal
literal-Shrinks mark [] = none-Shrinks _
literal-Shrinks mark (c ∷ cs) =
    if-Shrinks _ _ _ _
      (taking-Shrinks (c ∷ []) _ _
        (Shrinks-weaken (quoted mark cs) _ _ (omega arith) (quoted-Shrinks mark cs)))
      (none-Shrinks _)

identifier-Shrinks :
    (classes : Classes) (text : Text) → Shrinks (identifier classes text) (length text)
unfolding identifier
identifier-Shrinks classes [] = none-Shrinks _
identifier-Shrinks classes (c ∷ cs) =
    if-Shrinks _ _ _ _ (some-Shrinks _ _ _ (omega (arith, word-le classes cs))) (none-Shrinks _)

colons-Shrinks : (text : Text) → Shrinks (colons text) (length text)
unfolding colons starts_with
colons-Shrinks [] = none-Shrinks _
colons-Shrinks (c ∷ cs) =
    if-Shrinks _ _ _ _ (some-Shrinks _ _ _ (omega (arith, length-drop 1 cs))) (none-Shrinks _)

single-Shrinks : (classes : Classes) (text : Text) → Shrinks (single classes text) (length text)
unfolding single
single-Shrinks classes [] = none-Shrinks _
single-Shrinks classes (c ∷ cs) =
    if-Shrinks _ _ _ _ (none-Shrinks _) (some-Shrinks _ _ _ (omega arith))

match_at-Shrinks : (classes : Classes) (text : Text) → Shrinks (match_at classes text) (length text)
unfolding match_at
match_at-Shrinks classes text = or_else-Shrinks _ _ _ (line_comment-Shrinks text) (
    or_else-Shrinks _ _ _ (block_comment-Shrinks text) (
      or_else-Shrinks _ _ _ (raw_literal-Shrinks text) (
        or_else-Shrinks _ _ _ (literal-Shrinks 34 text) (
          or_else-Shrinks _ _ _ (literal-Shrinks 39 text) (
            or_else-Shrinks _ _ _ (identifier-Shrinks classes text)
              (or_else-Shrinks _ _ _ (colons-Shrinks text) (single-Shrinks classes text)))))))

match-cases : (m : Match) → (m ≡ none) ⊎ ((taken : Text) × (rest : Text) × (m ≡ some (taken, rest)))
match-cases none = inl refl
match-cases (some (taken, rest)) = inr (taken, rest, refl)

shorter_rest : (taken rest : Text) (n : ℕ) → Shrinks (some (taken, rest)) n → length rest < n
unfolding Shrinks
shorter_rest taken rest n h = h

find_all_found :
    (classes : Classes) (fuel c : ℕ) (cs taken rest : Text)
    → match_at classes (c ∷ cs) ≡ some (taken, rest)
    → find_all classes (suc fuel) (c ∷ cs) ≡ taken ∷ find_all classes fuel rest
unfolding find_all
find_all_found classes fuel c cs taken rest found = rw (found, find_all) refl

-- More rounds than the text has characters change nothing.
find_all_enough :
    (classes : Classes) (fuel more : ℕ) (text : Text)
    → length text ≤ fuel
    → length text ≤ more
    → find_all classes fuel text ≡ find_all classes more text
unfolding find_all
find_all_enough classes fuel more [] h k = refl
find_all_enough classes zero more (c ∷ cs) h k = absurd (omega arith)
find_all_enough classes (suc fuel) zero (c ∷ cs) h k = absurd (omega arith)
find_all_enough classes (suc fuel) (suc more) (c ∷ cs) h k =
    elim (match-cases (match_at classes (c ∷ cs))) [
      | inl missed ↦
          rw (missed, find_all) (find_all_enough classes fuel more cs (omega arith) (omega arith))
      | inr (taken, rest, found) ↦
          let shorter : length rest < suc (length cs) =
            shorter_rest taken rest _ (rw found at (match_at-Shrinks classes (c ∷ cs))) in
          rw (found, find_all)
            (ap (λ (t : List Text). taken ∷ t)
              (find_all_enough classes fuel more rest (omega arith) (omega arith)))
    ]

-- A match that is dropped is as good as none: the search goes on behind it.
pub tokens_drop :
    (classes : Classes) (c : ℕ) (cs taken rest : Text)
    → match_at classes (c ∷ cs) ≡ some (taken, rest)
    → is_dropped taken ≡ true
    → tokens classes (c ∷ cs) ≡ tokens classes rest
unfolding tokens
tokens_drop classes c cs taken rest found dropped =
    let shorter : length rest < suc (length cs) =
      shorter_rest taken rest _ (rw found at (match_at-Shrinks classes (c ∷ cs))) in
    let behind : find_all classes (suc (length cs)) (c ∷ cs)
        ≡ taken ∷ find_all classes (length cs) rest =
      find_all_found classes (length cs) c cs taken rest found in
    rw
      (
        behind,
        dropped,
        find_all_enough classes (length cs) (length rest) rest (omega arith) (omega arith),
      )
      refl

find_all_missed :
    (classes : Classes) (fuel c : ℕ) (cs : Text)
    → match_at classes (c ∷ cs) ≡ none
    → find_all classes (suc fuel) (c ∷ cs) ≡ find_all classes fuel cs
unfolding find_all
find_all_missed classes fuel c cs missed = rw (missed, find_all) refl

-- A place without a match is passed over.
pub tokens_skip :
    (classes : Classes) (c : ℕ) (cs : Text)
    → match_at classes (c ∷ cs) ≡ none
    → tokens classes (c ∷ cs) ≡ tokens classes cs
unfolding tokens
tokens_skip classes c cs missed = rw (find_all_missed classes (length cs) c cs missed) refl
