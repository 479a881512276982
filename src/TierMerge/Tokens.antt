-- ===== src/TierMerge/Tokens.antt =====
-- `_TOKENS` of tools/cdb_tier_merge.py: the alternatives of the regular expression, in its order, as
-- `finditer` tries them at each place. A pattern here returns what it takes and what follows. The classes
-- `\w` and `\s` beyond ASCII are an argument.
pub mod Literals
pub mod Written
pub mod Passed
use nvim_dot_files.Prelude.{
  ℕ, zero, suc, ◌+◌, Bool, true, false, not, ◌||◌, ◌&&◌, List, [], ◌∷◌, ◌++◌, Option, none, some,
  map, nat_eq, ltb, leb, length, take, drop, if◌then◌else◌, Eq-number, Eq-list, ◌==◌,
}
use nvim_dot_files.Prelude.Texts.{Text, codes}
use nvim_dot_files.Prelude.Sets.{mem, keep_if}

pub record Classes : Type 0 where
  pub wide_word : ℕ → Bool
  pub wide_space : ℕ → Bool

abbrev between : ℕ → ℕ → ℕ → Bool
between lo hi c = leb lo c && leb c hi

unfoldable pub is_letter : ℕ → Bool
is_letter c = between b'A' b'Z' c || (between b'a' b'z' c || nat_eq c b'_')

unfoldable pub is_word : Classes → ℕ → Bool
unfolding is_letter
is_word classes c = if ltb c 128 then is_letter c || between b'0' b'9' c else classes.wide_word c

unfoldable pub is_space : Classes → ℕ → Bool
is_space classes c = if ltb c 128 then between 9 13 c || between 28 32 c else classes.wide_space c

-- What a pattern takes, and what follows.
abbrev pub Match : Type 0
Match = Option (Text × Text)

abbrev pub taking : Text → Match → Match
taking front none = none
taking front (some (taken, rest)) = some (front ++ taken, rest)

abbrev pub or_else : Match → Match → Match
or_else none n = n
or_else (some m) n = some m

unfoldable pub starts_with : Text → Text → Bool
starts_with [] t = true
starts_with (p ∷ ps) [] = false
starts_with (p ∷ ps) (c ∷ cs) = nat_eq p c && starts_with ps cs

-- `[^\n]*`
unfoldable pub line : Text → Text × Text
line [] = ([], [])
line (c ∷ cs) =
    let (taken, rest) = line cs in if nat_eq c 10 then ([], c ∷ cs) else (c ∷ taken, rest)

-- `.*?` and a mark that ends it
unfoldable pub until : Text → Text → Match
unfolding starts_with
until mark [] = if starts_with mark [] then some ([], []) else none
until mark (c ∷ cs) =
    let later = until mark cs in
    if starts_with mark (c ∷ cs)
    then some (mark, drop (length mark) (c ∷ cs))
    else taking (c ∷ []) later

-- `([^ ()\\\t\r\n]{0,16})\(`: the delimiter, and what follows the parenthesis
abbrev no_delimiter : List ℕ
no_delimiter = 32 ∷ 40 ∷ 41 ∷ 92 ∷ 9 ∷ 13 ∷ 10 ∷ []

unfoldable pub delimiter : ℕ → Text → Match
unfolding mem
delimiter n [] = none
delimiter zero (c ∷ cs) = if nat_eq c 40 then some ([], cs) else none
delimiter (suc n) (c ∷ cs) =
    let later = taking (c ∷ []) (delimiter n cs) in
    if nat_eq c 40 then some ([], cs) else if mem c no_delimiter then none else later

-- `R"…(.*?)…"`, after the `R"`
unfoldable pub raw_string : Text → Match
unfolding delimiter until
raw_string text = elim (delimiter 16 text) [
  | none ↦ none
  | some (name, rest) ↦ taking (name ++ 40 ∷ []) (until (41 ∷ name ++ 34 ∷ []) rest)
]

-- `(?:\\.|[^"\\])*"`, after the first mark
unfoldable pub quoted : ℕ → Text → Match
quoted mark [] = none
quoted mark (c ∷ []) = if nat_eq c mark then some (c ∷ [], []) else none
quoted mark (c ∷ d ∷ ds) =
    let escaped = taking (c ∷ d ∷ []) (quoted mark ds) in
    let plain = taking (c ∷ []) (quoted mark (d ∷ ds)) in
    if nat_eq c mark then some (c ∷ [], d ∷ ds) else if nat_eq c 92 then escaped else plain

-- `\w*`
unfoldable pub word : Classes → Text → Text × Text
unfolding is_word
word classes [] = ([], [])
word classes (c ∷ cs) =
    let (taken, rest) = word classes cs in
    if is_word classes c then (c ∷ taken, rest) else ([], c ∷ cs)

-- Each alternative, at a text that is not empty.
unfoldable pub line_comment : Text → Match
unfolding line starts_with
line_comment text = if starts_with (codes "//") text then some (line text) else none

unfoldable pub block_comment : Text → Match
unfolding until starts_with
block_comment text =
    if starts_with (codes "/*") text
    then taking (codes "/*") (until (codes "*/") (drop 2 text))
    else none

unfoldable pub raw_literal : Text → Match
unfolding raw_string starts_with
raw_literal text =
    if starts_with (82 ∷ 34 ∷ []) text
    then taking (82 ∷ 34 ∷ []) (raw_string (drop 2 text))
    else none

unfoldable pub literal : ℕ → Text → Match
unfolding quoted
literal mark [] = none
literal mark (c ∷ cs) = if nat_eq c mark then taking (c ∷ []) (quoted mark cs) else none

unfoldable pub identifier : Classes → Text → Match
unfolding word is_letter
identifier classes [] = none
identifier classes (c ∷ cs) =
    let (taken, rest) = word classes cs in if is_letter c then some (c ∷ taken, rest) else none

unfoldable pub colons : Text → Match
unfolding starts_with
colons text = if starts_with (codes "::") text then some (codes "::", drop 2 text) else none

unfoldable pub single : Classes → Text → Match
unfolding is_space
single classes [] = none
single classes (c ∷ cs) = if is_space classes c then none else some (c ∷ [], cs)

unfoldable pub match_at : Classes → Text → Match
unfolding line_comment block_comment raw_literal literal identifier colons single
match_at classes text = or_else (line_comment text) (
    or_else (block_comment text) (
      or_else (raw_literal text) (
        or_else (literal 34 text) (
          or_else (literal 39 text)
            (or_else (identifier classes text) (or_else (colons text) (single classes text)))))))

-- `_TOKENS.finditer(text)`: a match is taken, and a place without one is passed over.
unfoldable pub find_all : Classes → ℕ → Text → List Text
unfolding match_at
find_all classes fuel [] = []
find_all classes zero (c ∷ cs) = []
find_all classes (suc fuel) (c ∷ cs) = elim (match_at classes (c ∷ cs)) [
  | none ↦ find_all classes fuel cs
  | some (taken, rest) ↦ taken ∷ find_all classes fuel rest
]

-- `startswith(('//', '/*', '"', "'", 'R"'))`
unfoldable pub is_dropped : Text → Bool
unfolding starts_with
is_dropped t =
    starts_with (codes "//") t
    || (starts_with (codes "/*") t
        || (starts_with (34 ∷ []) t || (starts_with (39 ∷ []) t || starts_with (82 ∷ 34 ∷ []) t)))

-- The tokens that are screened.
unfoldable pub tokens : Classes → Text → List Text
unfolding find_all is_dropped keep_if
tokens classes text = keep_if (λ t. not (is_dropped t)) (find_all classes (length text) text)
