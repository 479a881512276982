-- ===== src/TierMerge/Definitions/Blocks.antt =====
-- What stands in a block that is not a namespace defines nothing for the file.
use nvim_dot_files.Prelude.{
  ℕ, zero, suc, ◌≡◌, refl, ap, ◌∙◌, Bool, true, false, List, [], ◌∷◌, ◌++◌, nat_eq, if◌then◌else◌,
  Bool-cases, inl, inr, arith, Eq-number, Eq-list, ◌==◌, beq_eq,
}
use nvim_dot_files.Prelude.Texts.{Text, codes}
use nvim_dot_files.Prelude.Sets.{every}
use nvim_dot_files.TierMerge.Tokens.{Classes}
use nvim_dot_files.TierMerge.Definitions.{
  Scope, other, Screen, namespace_scope, declaration, opened, screen_step, screen,
}

-- The braces of some tokens match, `depth` of them having been opened before.
abbrev pub balanced : ℕ → List Text → Bool
balanced depth [] = nat_eq depth 0
balanced zero (t ∷ ts) =
    if t == codes "{" then balanced 1 ts else if t == codes "}" then false else balanced zero ts
balanced (suc depth) (t ∷ ts) =
    if t == codes "{"
    then balanced (suc (suc depth)) ts
    else if t == codes "}"
    then balanced depth ts
    else balanced (suc depth) ts

-- The scopes of blocks in a block.
inside : ℕ → List Scope → List Scope
inside zero scopes = other ∷ scopes
inside (suc depth) scopes = other ∷ inside depth scopes

no_namespace : (depth : ℕ) (scopes : List Scope) → namespace_scope (inside depth scopes) ≡ false
unfolding namespace_scope inside every
no_namespace zero scopes = refl
no_namespace (suc depth) scopes = refl

-- One token in a block of a block, at some depth.
abbrev at_depth : List Text → ℕ → List Scope → List Text → Screen
at_depth names depth scopes statement = record {
  names = names;
  scopes = inside depth scopes;
  statement = statement;
}

-- One token of the body, and the rest of it.
go :
    (classes : Classes) (t : Text) (tokens : List Text) (s s' : Screen) (e : Screen)
    → screen_step classes t s ≡ s'
    → screen classes tokens s' ≡ e
    → screen classes (t ∷ tokens) s ≡ e
unfolding screen
go classes t tokens s s' e p q = ap (screen classes tokens) p ∙ q

module _ (classes : Classes) (names : List Text) (scopes : List Scope) where
  open_step :
      (depth : ℕ) (statement : List Text)
      → screen_step classes (codes "{") (at_depth names depth scopes statement)
        ≡ at_depth names (suc depth) scopes []
  unfolding screen_step declaration opened inside
  open_step depth statement = rw (no_namespace depth scopes) refl

  close_step :
      (depth : ℕ) (statement : List Text)
      → screen_step classes (codes "}") (at_depth names (suc depth) scopes statement)
        ≡ at_depth names depth scopes []
  unfolding screen_step inside
  close_step depth statement = refl

  last_step :
      (statement : List Text)
      → screen_step classes (codes "}") (at_depth names 0 scopes statement)
        ≡ record { names = names; scopes = scopes; statement = [] }
  unfolding screen_step inside
  last_step statement = refl

  other_step :
      (t : Text) (depth : ℕ) (statement : List Text)
      → (t == codes "{") ≡ false
      → (t == codes "}") ≡ false
      → (statement' : List Text) × (screen_step classes t (at_depth names depth scopes statement)
          ≡ at_depth names depth scopes statement')
  unfolding screen_step declaration
  other_step t depth statement a b = elim (Bool-cases (t == codes ";")) [
    | inl c ↦ ([], rw (a, b, c, no_namespace depth scopes) refl)
    | inr c ↦ (statement ++ t ∷ [], rw (a, b, c) refl)
  ]

  -- From a depth on, to the brace that closes the block.
  block_from :
      (body : List Text) (depth : ℕ) (statement rest : List Text)
      → balanced depth body ≡ true
      → screen classes (body ++ codes "}" ∷ rest) (at_depth names depth scopes statement)
        ≡ screen classes rest (record { names = names; scopes = scopes; statement = [] })
  block_from [] zero statement rest h = go classes (codes "}") rest _ _ _ (last_step statement) refl
  block_from [] (suc depth) statement rest h = absurd (ground arith)
  block_from (t ∷ body) zero statement rest h = elim (Bool-cases (t == codes "{")) [
    | inl a ↦ rw (beq_eq t (codes "{") a) (
        go classes (codes "{") _ _ _ _ (open_step zero statement)
          (block_from body 1 [] rest (rw a at h)))
    | inr a ↦ elim (Bool-cases (t == codes "}")) [
      | inl b ↦ cc (rw b at (rw a at h))
      | inr b ↦
          let (statement', step) = other_step t zero statement a b in
          go classes t _ _ _ _ step (block_from body zero statement' rest (rw b at (rw a at h)))
    ]
  ]
  block_from (t ∷ body) (suc depth) statement rest h = elim (Bool-cases (t == codes "{")) [
    | inl a ↦ rw (beq_eq t (codes "{") a) (
        go classes (codes "{") _ _ _ _ (open_step (suc depth) statement)
          (block_from body (suc (suc depth)) [] rest (rw a at h)))
    | inr a ↦ elim (Bool-cases (t == codes "}")) [
      | inl b ↦ rw (beq_eq t (codes "}") b) (
          go classes (codes "}") _ _ _ _ (close_step depth statement)
            (block_from body depth [] rest (rw b at (rw a at h))))
      | inr b ↦
          let (statement', step) = other_step t (suc depth) statement a b in
          go classes t _ _ _ _ step
            (block_from body (suc depth) statement' rest (rw b at (rw a at h)))
    ]
  ]

open_brace :
    (classes : Classes) (s : Screen)
    → opened s ≡ other
    → screen_step classes (codes "{") s ≡ at_depth (declaration classes true s).names 0 s.scopes []
unfolding screen_step inside
open_brace classes s plain = rw plain refl

-- A block that does not open a namespace is passed over whole, with the blocks in it: after its closing
-- brace the names are those that the statement before its opening brace has left, and the scopes are
-- those before it.
pub screen-block :
    (classes : Classes) (body rest : List Text) (s : Screen)
    → opened s ≡ other
    → balanced 0 body ≡ true
    → screen classes (codes "{" ∷ body ++ codes "}" ∷ rest) s
      ≡ screen classes rest
          (record { names = (declaration classes true s).names; scopes = s.scopes; statement = [] })
screen-block classes body rest s plain h =
    go classes (codes "{") _ s _ _ (open_brace classes s plain)
      (block_from classes (declaration classes true s).names s.scopes body 0 [] rest h)
