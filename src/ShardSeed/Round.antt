-- ===== src/ShardSeed/Round.antt =====
-- What one round of the loop of `seed` leaves in the target.
use nvim_dot_files.Prelude.{
  ℕ, ◌≡◌, refl, sym, ap, ◌∙◌, Bool, true, false, List, [], ◌∷◌, ◌++◌, Option, none, some,
  Option-cases, ◌==◌, Eq-number, Eq-list, Bool-cases, beq_self, inl, inr, arith,
}
use mathlib.Core.Bool.{false≢true}
use nvim_dot_files.Prelude.Texts.{Text}
use nvim_dot_files.ShardSeed.{
  Directory, lookup, Answer, granted, refused, taken, System, Seeding, Created, made,
  exists_already, failed, create_absent, create, after_copy, copy_shard, after_link, seed_shard,
  is_present,
}

-- Every file of the first directory is in the second, with its bytes.
abbrev pub Keeps : Directory → Directory → Type 0
Keeps before after =
    (name : Text) (content : List ℕ)
    → lookup name before ≡ some content
    → lookup name after ≡ some content

pub lookup-append :
    (name : Text) (d e : Directory) (content : List ℕ)
    → lookup name d ≡ some content
    → lookup name (d ++ e) ≡ some content
unfolding lookup
lookup-append name [] e content h = cc
lookup-append name ((n, c) ∷ d) e content h = ground (arith, lookup-append name d e content)

pub lookup-added :
    (name : Text) (d : Directory) (content : List ℕ)
    → is_present (lookup name (d ++ (name, content) ∷ [])) ≡ true
unfolding lookup
lookup-added name [] content = rw (beq_self name) refl
lookup-added name ((n, c) ∷ d) content = elim (Bool-cases (n == name)) [
  | inl same ↦ rw same refl
  | inr differ ↦ rw differ (lookup-added name d content)
]

-- A creation leaves the old files, and its own name is there unless it failed.
abbrev pub Creates : Text → Directory → Created → Type 0
Creates name before (made after) = Keeps before after × (is_present (lookup name after) ≡ true)
Creates name before (exists_already after) =
    Keeps before after × (is_present (lookup name after) ≡ true)
Creates name before failed = Unit

pub create-Creates :
    (name : Text) (content : List ℕ) (d : Directory) (answer : Answer)
    → Creates name d (create name content d answer)
unfolding create
create-Creates name content d answer = go (lookup name d) refl answer
  where
    go :
        (o : Option (List ℕ))
        → lookup name d ≡ o
        → (a : Answer) → Creates name d (create_absent name content d a o)
    go none e granted = ((λ n c h. lookup-append n d _ c h), lookup-added name d content)
    go none e refused = tt
    go none e (taken other) = ((λ n c h. lookup-append n d _ c h), lookup-added name d other)
    go (some old) e a = ((λ n c h. h), ap is_present e)

-- What a body of the loop leaves: the old files, and its name unless the loop ends.
pub record Leaves (name : Text) (before : Directory) (r : Bool × Seeding) : Type 0 where
  pub kept : Keeps before r.1.target
  pub there : r.0 ≡ true → is_present (lookup name r.1.target) ≡ true

pub after_copy-Leaves :
    (name : Text) (s : Seeding) (c : Created)
    → Creates name s.target c
    → Leaves name s.target (after_copy s c)
after_copy-Leaves name s (made target) (k, p) = record { kept = k; there = λ e. p }
after_copy-Leaves name s (exists_already target) (k, p) = record { kept = k; there = λ e. p }
after_copy-Leaves name s failed h = record { kept = λ n c e. e; there = λ e. cc }

pub copy_shard-Leaves :
    (system : System) (name : Text) (content : List ℕ) (s : Seeding)
    → Leaves name s.target (copy_shard system name content s)
unfolding copy_shard
copy_shard-Leaves system name content s =
    after_copy-Leaves name s (create name content s.target (system.copy name))
      (create-Creates name content s.target (system.copy name))

pub after_link-Leaves :
    (system : System) (name : Text) (content : List ℕ) (s : Seeding) (c : Created)
    → Creates name s.target c
    → Leaves name s.target (after_link system name content s c)
after_link-Leaves system name content s (made target) (k, p) = record { kept = k; there = λ e. p }
after_link-Leaves system name content s (exists_already target) (k, p) = record {
  kept = k;
  there = λ e. p;
}
after_link-Leaves system name content s failed h =
    copy_shard-Leaves system name content (record s { linking = false })

pub seed_shard-Leaves :
    (system : System) (name : Text) (content : List ℕ) (s : Seeding)
    → Leaves name s.target (seed_shard system name content s)
unfolding seed_shard
seed_shard-Leaves system name content s = elim (Bool-cases s.linking) [
  | inl on ↦
      rw (on, seed_shard)
        (after_link-Leaves system name content s (create name content s.target (system.link name))
          (create-Creates name content s.target (system.link name)))
  | inr off ↦ rw (off, seed_shard) (copy_shard-Leaves system name content s)
]

pub present_kept :
    (name : Text) (d e : Directory)
    → Keeps d e
    → is_present (lookup name d) ≡ true
    → is_present (lookup name e) ≡ true
present_kept name d e k h = elim (Option-cases (lookup name d)) [
  | inl missing ↦ absurd (false≢true (sym (ap is_present missing) ∙ h))
  | inr (c, there) ↦ ap is_present (k name c there)
]
