-- ===== src/ShardSeed/Untouched.antt =====
-- What `seed` leaves in the target.
use nvim_dot_files.Prelude.{
  ℕ, ◌≡◌, ◌⊎◌, refl, sym, ap, ◌∙◌, Bool, true, false, List, [], ◌∷◌, none, Option-cases, ◌==◌,
  Eq-number, Eq-list, Bool-cases, inl, inr, All,
}
use nvim_dot_files.Prelude.Texts.{Text}
use nvim_dot_files.ShardSeed.{
  Directory, lookup, is_shard, shards, System, Seeding, seed_shard, is_present, seed_loop, seeded,
  unseeded, reason_of, seed_directories, seed,
}
use nvim_dot_files.ShardSeed.Round.{Keeps, seed_shard-Leaves, present_kept}

lookup-shards :
    (name n : Text) (c : List ℕ) (d : Directory)
    → (n == name) ≡ false
    → lookup name (shards ((n, c) ∷ d)) ≡ lookup name (shards d)
unfolding lookup shards
lookup-shards name n c d differ = elim (Bool-cases (is_shard n)) [
  | inl shard ↦ rw shard (rw differ refl)
  | inr other ↦ rw other refl
]

present_shards :
    (name : Text) (d : Directory)
    → is_present (lookup name (shards d)) ≡ true
    → is_present (lookup name d) ≡ true
unfolding lookup shards
present_shards name [] h = h
present_shards name ((n, c) ∷ d) h = elim (Bool-cases (n == name)) [
  | inl same ↦ rw same refl
  | inr differ ↦
      rw differ (present_shards name d (sym (ap is_present (lookup-shards name n c d differ)) ∙ h))
]

abbrev pub HasAll : Directory → Directory → Type 0
HasAll source target = All (λ (f : Text × List ℕ). is_present (lookup f.0 target) ≡ true) source

record Done (source before : Directory) (r : Bool × Seeding) : Type 0 where
  kept : Keeps before r.1.target
  all_there : r.0 ≡ true → HasAll source r.1.target

seed_loop-Done :
    (system : System) (present source : Directory) (s : Seeding)
    → ((name : Text)
        → is_present (lookup name present) ≡ true
        → is_present (lookup name s.target) ≡ true)
    → Done source s.target (seed_loop system present source s)
unfolding seed_loop
seed_loop-Done system present [] s h = record { kept = λ n c e. e; all_there = λ e. tt }
seed_loop-Done system present ((name, content) ∷ source) s h =
    elim (Bool-cases (is_present (lookup name present))) [
      | inl there ↦
          let rest = seed_loop-Done system present source s h in
          rw (there, seed_loop)
            (record {
              kept = rest.kept;
              all_there =
                  λ e. (present_kept name s.target _ rest.kept (h name there), rest.all_there e);
            })
      | inr absent ↦
          let r : Bool × Seeding = seed_shard system name content s in
          let leaves = seed_shard-Leaves system name content s in
          elim (Bool-cases r.0) [
            | inl going ↦
                let rest =
                  seed_loop-Done system present source r.1
                    (λ n p. present_kept n s.target r.1.target leaves.kept (h n p)) in
                rw (absent, seed_loop)
                  (rw (going, seed_loop)
                    (record {
                      kept = λ n c e. rest.kept n c (leaves.kept n c e);
                      all_there = λ e. (
                        present_kept name r.1.target _ rest.kept (leaves.there going),
                        rest.all_there e,
                      );
                    }))
            | inr stopped ↦
                rw (absent, seed_loop)
                  (rw (stopped, seed_loop) (record { kept = leaves.kept; all_there = λ e. cc }))
          ]
    ]

directories-Done :
    (system : System) (source target : Directory)
    → Done
        (shards source)
        target
        (seed_loop system (shards target) (shards source) (unseeded target))
directories-Done system source target =
    seed_loop-Done system (shards target) (shards source) (unseeded target)
      (λ name p. present_shards name target p)

seeded_going : (going : Bool) → reason_of going ≡ seeded → going ≡ true
seeded_going true e = refl
seeded_going false e = cc

-- Each name is free in the first directory, or has the same bytes in the second.
abbrev pub Untouched : Directory → Directory → Type 0
Untouched before after =
    (name : Text) → (lookup name before ≡ none) ⊎ (lookup name after ≡ lookup name before)

Keeps-Untouched : (before after : Directory) → Keeps before after → Untouched before after
Keeps-Untouched before after k name = elim (Option-cases (lookup name before)) [
  | inl free ↦ inl free
  | inr (content, there) ↦ inr (k name content there ∙ sym there)
]

directories-Untouched :
    (system : System) (source target : Directory)
    → Untouched target (seed_directories system source target).seeding.target
unfolding seed_directories
directories-Untouched system source target =
    Keeps-Untouched target _ (directories-Done system source target).kept

directories-HasAll :
    (system : System) (source target : Directory)
    → (seed_directories system source target).reason ≡ seeded
    → HasAll (shards source) (seed_directories system source target).seeding.target
unfolding seed_directories
directories-HasAll system source target e =
    (directories-Done system source target).all_there (seeded_going _ e)

-- Whatever the system answers and whatever another process makes meanwhile, `seed` leaves every file that
-- the target held as it was.
pub seed-Untouched :
    (system : System) (source_there target_there same : Bool) (source target : Directory)
    → Untouched target (seed system source_there target_there same source target).seeding.target
unfolding seed
seed-Untouched system false target_there same source target name = inr refl
seed-Untouched system true false same source target name = inr refl
seed-Untouched system true true true source target name = inr refl
seed-Untouched system true true false source target name =
    directories-Untouched system source target name

-- Where the reason is "seeded", the target has a file for every shard of the source.
pub seed-HasAll :
    (system : System) (source_there target_there same : Bool) (source target : Directory)
    → (seed system source_there target_there same source target).reason ≡ seeded
    → HasAll
        (shards source)
        (seed system source_there target_there same source target).seeding.target
unfolding seed
seed-HasAll system false target_there same source target e = cc
seed-HasAll system true false same source target e = cc
seed-HasAll system true true true source target e = cc
seed-HasAll system true true false source target e = directories-HasAll system source target e
