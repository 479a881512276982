-- ===== src/ShardSeed/Tests.antt =====
-- The theorems about tools/clangd_shard_seed.py on small directories.
use nvim_dot_files.Prelude.{
  ◌≡◌, refl, true, false, [], ◌∷◌, if◌then◌else◌, ◌==◌, Eq-number, Eq-list,
}
use nvim_dot_files.Prelude.Texts.{codes}
use nvim_dot_files.ShardSeed.{Directory, shards, System, granted, refused, taken, seed, seeded}
use nvim_dot_files.ShardSeed.Untouched.{Untouched, HasAll, seed-Untouched, seed-HasAll}

-- Links are refused, and another process makes "b.idx" first.
abbrev busy : System
busy = record {
  link = λ name. refused;
  copy = λ name. if name == codes "b.idx" then taken (9 ∷ []) else granted;
}

abbrev original : Directory
original =
    (codes "a.idx", 1 ∷ [])
    ∷ (codes "b.idx", 2 ∷ [])
    ∷ (codes "c.idx", 3 ∷ [])
    ∷ (codes "c.txt", [])
    ∷ []

abbrev frozen : Directory
frozen = (codes "a.idx", 7 ∷ []) ∷ []

seed-Untouched_example : Untouched frozen (seed busy true true false original frozen).seeding.target
seed-Untouched_example = seed-Untouched busy true true false original frozen

busy-seeded : (seed busy true true false original frozen).reason ≡ seeded
unfolding seed
busy-seeded = refl

seed-HasAll_example :
    HasAll (shards original) (seed busy true true false original frozen).seeding.target
seed-HasAll_example = seed-HasAll busy true true false original frozen busy-seeded
