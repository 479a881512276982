-- ===== src/HotUnity/Stable.antt =====
-- The member path does not say where the workspace is.
use nvim_dot_files.Prelude.{
  ℕ, ◌≡◌, refl, List, [], ◌∷◌, ◌++◌, some, nat_eq, Eq-number, Eq-list, ◌==◌, Bool-cases, inl, inr,
}
use nvim_dot_files.Prelude.Texts.{Text}
use nvim_dot_files.OrderedUnity.Parse.{slashes}
use nvim_dot_files.HotUnity.Paths.{
  on_first, split_path, nonempty_parts, portable_parts, from_source, member_parts,
  portable_member_path,
}

slashes-append : (a b : Text) → slashes (a ++ b'/' ∷ b) ≡ slashes a ++ b'/' ∷ slashes b
unfolding slashes
slashes-append [] b = refl
slashes-append (c ∷ a) b = rw (slashes-append a b) refl

on_first-append :
    (c : ℕ) (t : Text) (others : List Text)
    → on_first c (split_path t ++ others) ≡ on_first c (split_path t) ++ others
unfolding split_path
on_first-append c [] others = refl
on_first-append c (d ∷ t) others = elim (Bool-cases (nat_eq d b'/')) [
  | inl mark ↦ rw mark refl
  | inr other ↦ rw other (go (split_path t))
]
  where
    go :
        (parts : List Text)
        → on_first c (on_first d parts ++ others) ≡ on_first c (on_first d parts) ++ others
    go [] = refl
    go (part ∷ parts) = refl

split-append : (a b : Text) → split_path (a ++ b'/' ∷ b) ≡ split_path a ++ split_path b
unfolding split_path
split-append [] b = refl
split-append (c ∷ a) b = elim (Bool-cases (nat_eq c b'/')) [
  | inl mark ↦ rw (mark, split-append a b) refl
  | inr other ↦ rw (other, split-append a b) (on_first-append c a (split_path b))
]

nonempty-append : (a b : List Text) → nonempty_parts (a ++ b) ≡ nonempty_parts a ++ nonempty_parts b
unfolding nonempty_parts
nonempty-append [] b = refl
nonempty-append (part ∷ a) b = elim (Bool-cases (part == [])) [
  | inl empty ↦ rw (empty, nonempty-append a b) refl
  | inr other ↦ rw (other, nonempty-append a b) refl
]

parts-append :
    (root file : Text)
    → portable_parts (root ++ b'/' ∷ file) ≡ portable_parts root ++ portable_parts file
unfolding portable_parts
parts-append root file = rw (slashes-append root file) (
    rw (split-append (slashes root) (slashes file))
      (nonempty-append (split_path (slashes root)) (split_path (slashes file))))

source-cons :
    (part : Text) (below found : List Text)
    → from_source below ≡ some found
    → from_source (part ∷ below) ≡ some found
unfolding from_source
source-cons part [] found e = cc e
source-cons part (next ∷ rest) found e = rw e refl

source-below :
    (above parts found : List Text)
    → from_source parts ≡ some found
    → from_source (above ++ parts) ≡ some found
source-below [] parts found h = h
source-below (part ∷ above) parts found h =
    source-cons part (above ++ parts) found (source-below above parts found h)

-- Where the path of a file has a part `Source` with another part behind it, its member path is the same
-- below every root.
pub portable_member_path_below :
    (root file : Text) (found : List Text)
    → from_source (portable_parts file) ≡ some found
    → portable_member_path (root ++ b'/' ∷ file) ≡ portable_member_path file
unfolding portable_member_path member_parts
portable_member_path_below root file found h =
    rw (parts-append root file)
      (rw (source-below (portable_parts root) (portable_parts file) found h, h) refl)
