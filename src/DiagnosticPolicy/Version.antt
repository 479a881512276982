-- ===== src/DiagnosticPolicy/Version.antt =====
-- The regular expressions of tools/clangd_diagnostic_compat.py: the version of clangd, and the target.
use nvim_dot_files.Prelude.{
  ℕ, Bool, true, false, not, ◌||◌, ◌&&◌, [], ◌∷◌, Option, none, some, nat_eq, ltb, leb, Eq-number,
  Eq-list, ◌==◌, if◌then◌else◌, drop,
}
use nvim_dot_files.Prelude.Texts.{Text, codes}
use nvim_dot_files.Prelude.Sets.{every}
use nvim_dot_files.TierMerge.Tokens.{Classes, is_word, starts_with}

-- `\d`, with what it takes beyond ASCII as an argument.
unfoldable pub is_digit : (ℕ → Bool) → ℕ → Bool
is_digit wide c = if ltb c 128 then leb b'0' c && leb c b'9' else wide c

-- `(\d+)`: the digits, and what follows
unfoldable pub digits : (ℕ → Bool) → Text → Text × Text
unfolding is_digit
digits wide [] = ([], [])
digits wide (c ∷ t) =
    let (taken, rest) = digits wide t in if is_digit wide c then (c ∷ taken, rest) else ([], c ∷ t)

-- `\.`, after a number that is not empty
abbrev dot : Text × Text → Option Text
dot ([], rest) = none
dot (c ∷ taken, []) = none
dot (c ∷ taken, d ∷ rest) = if nat_eq d b'.' then some rest else none

abbrev ends_word : Classes → Text → Bool
ends_word classes [] = true
ends_word classes (c ∷ t) = not (is_word classes c)

-- `(\d+)\.(\d+)\.(\d+)\b`: the first two numbers
unfoldable pub version_numbers : Classes → (ℕ → Bool) → Text → Option (Text × Text)
unfolding digits is_word
version_numbers classes wide t =
    let major = digits wide t in
    elim (dot major) [
      | none ↦ none
      | some rest ↦
          let minor = digits wide rest in
          elim (dot minor) [
            | none ↦ none
            | some last ↦
                let patch = digits wide last in
                if not (patch.0 == []) && ends_word classes patch.1
                then some (major.0, minor.0)
                else none
          ]
    ]

-- The first match of the whole expression; the flag says whether a word may start here.
unfoldable pub find_version : Classes → (ℕ → Bool) → Bool → Text → Option (Text × Text)
unfolding version_numbers starts_with is_word
find_version classes wide boundary [] = none
find_version classes wide boundary (c ∷ t) =
    let later = find_version classes wide (not (is_word classes c)) t in
    if boundary && starts_with (codes "clangd version ") (c ∷ t)
    then elim (version_numbers classes wide (drop 15 (c ∷ t))) [
      | none ↦ later
      | some numbers ↦ some numbers
    ]
    else later

abbrev is_22_1 : Option (Text × Text) → Bool
is_22_1 none = false
is_22_1 (some (major, minor)) = major == codes "22" && minor == codes "1"

unfoldable pub supported_version : Classes → (ℕ → Bool) → Text → Bool
unfolding find_version
supported_version classes wide output = is_22_1 (find_version classes wide true output)

-- `[A-Za-z0-9_]`
unfoldable pub is_name_char : ℕ → Bool
is_name_char c =
    (leb b'A' c && leb c b'Z')
    || ((leb b'a' c && leb c b'z') || ((leb b'0' c && leb c b'9') || nat_eq c b'_'))

-- `(?:eabi)?\d*`
unfoldable pub android_end : (ℕ → Bool) → Text → Bool
unfolding every is_digit starts_with
android_end wide t =
    every (is_digit wide) t || (starts_with (codes "eabi") t && every (is_digit wide) (drop 4 t))

-- `[A-Za-z0-9_]+(?:-[A-Za-z0-9_]+)*-linux-android(?:eabi)?\d*`; the flag says whether the name before is
-- not empty.
unfoldable pub android_from : (ℕ → Bool) → Bool → Text → Bool
unfolding is_name_char android_end starts_with
android_from wide named [] = false
android_from wide named (c ∷ t) =
    let in_name = android_from wide true t in
    let next_name = android_from wide false t in
    if named && (starts_with (codes "-linux-android") (c ∷ t) && android_end wide (drop 14 (c ∷ t)))
    then true
    else if is_name_char c
    then in_name
    else if nat_eq c b'-' && named
    then next_name
    else false

unfoldable pub is_android : (ℕ → Bool) → Text → Bool
unfolding android_from
is_android wide target = android_from wide false target
