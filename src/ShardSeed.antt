-- ===== src/ShardSeed.antt =====
-- tools/clangd_shard_seed.py: the shards that a frozen cache lacks, taken from the original one.
pub mod Round
pub mod Untouched
mod Tests
use nvim_dot_files.Prelude.{
  ℕ, zero, suc, ◌+◌, Bool, true, false, not, ◌&&◌, ◌||◌, List, [], ◌∷◌, ◌++◌, Option, none, some,
  length, map, if◌then◌else◌, ◌==◌, Eq-number, Eq-list,
}
use nvim_dot_files.Prelude.Texts.{Text, codes}

-- A directory: the regular files by name, with their bytes.
abbrev pub Directory : Type 0
Directory = List (Text × List ℕ)

unfoldable pub lookup : Text → Directory → Option (List ℕ)
lookup name [] = none
lookup name ((n, content) ∷ directory) = if n == name then some content else lookup name directory

unfoldable pub starts_with : Text → Text → Bool
starts_with [] name = true
starts_with (c ∷ prefix) [] = false
starts_with (c ∷ prefix) (d ∷ name) = c == d && starts_with prefix name

-- `part in name`
unfoldable pub contains : Text → Text → Bool
unfolding starts_with
contains part [] = starts_with part []
contains part (c ∷ name) = starts_with part (c ∷ name) || contains part name

-- `name.endswith(suffix)`
unfoldable pub ends_with : Text → Text → Bool
ends_with suffix [] = suffix == []
ends_with suffix (c ∷ name) = suffix == c ∷ name || ends_with suffix name

-- The test of `_shards` on a regular file.
unfoldable pub is_shard : Text → Bool
unfolding ends_with contains
is_shard name = ends_with (codes ".idx") name && not (contains (codes ".temp-stream-") name)

unfoldable pub shards : Directory → Directory
unfolding is_shard
shards [] = []
shards ((name, content) ∷ directory) =
    let rest = shards directory in if is_shard name then (name, content) ∷ rest else rest

-- How the system answers for one name. `os.link` and an exclusive open fail with `FileExistsError` where the
-- name is there; `taken` says that another process has made the file just before, with those bytes.
pub data Answer : Type 0 where
  granted refused : Answer
  taken : List ℕ → Answer

pub record System : Type 0 where
  pub link : Text → Answer
  pub copy : Text → Answer

-- `result` and the target, with `link`.
pub record Seeding : Type 0 where
  pub target : Directory
  pub linking : Bool
  pub linked : ℕ
  pub copied : ℕ

-- A creation ends: made, not made since the name is taken, or an `OSError`.
pub data Created : Type 0 where
  made exists_already : Directory → Created
  failed : Created

abbrev answered : Text → List ℕ → Directory → Answer → Created
answered name content target granted = made (target ++ (name, content) ∷ [])
answered name content target refused = failed
answered name content target (taken other) = exists_already (target ++ (name, other) ∷ [])

abbrev create_absent : Text → List ℕ → Directory → Answer → Option (List ℕ) → Created
create_absent name content target answer none = answered name content target answer
create_absent name content target answer (some old) = exists_already target

unfoldable pub create : Text → List ℕ → Directory → Answer → Created
unfolding lookup
create name content target answer = create_absent name content target answer (lookup name target)

-- `open(destination, "xb")` and the copy; `none` is the `OSError`, which removes what was copied.
abbrev pub after_copy : Seeding → Created → Bool × Seeding
after_copy s (made target) = (true, record s { target = target; copied = suc s.copied })
after_copy s (exists_already target) = (true, record s { target = target })
after_copy s failed = (false, s)

unfoldable pub copy_shard : System → Text → List ℕ → Seeding → Bool × Seeding
unfolding create
copy_shard system name content s = after_copy s (create name content s.target (system.copy name))

abbrev pub after_link : System → Text → List ℕ → Seeding → Created → Bool × Seeding
after_link system name content s (made target) =
    (true, record s { target = target; linked = suc s.linked })
after_link system name content s (exists_already target) = (true, record s { target = target })
after_link system name content s failed =
    copy_shard system name content (record s { linking = false })

-- The body of the loop, for a name that is not in `present`; `false` says that an `OSError` left the loop.
unfoldable pub seed_shard : System → Text → List ℕ → Seeding → Bool × Seeding
unfolding create copy_shard
seed_shard system name content s = elim s.linking [
  | true ↦ after_link system name content s (create name content s.target (system.link name))
  | false ↦ copy_shard system name content s
]

abbrev pub is_present : Option (List ℕ) → Bool
is_present none = false
is_present (some content) = true

unfoldable pub seed_loop : System → Directory → Directory → Seeding → Bool × Seeding
unfolding lookup seed_shard
seed_loop system present [] s = (true, s)
seed_loop system present ((name, content) ∷ source) s = elim (is_present (lookup name present)) [
  | true ↦ seed_loop system present source s
  | false ↦
      let (going, s') = seed_shard system name content s in
      elim going [ true ↦ seed_loop system present source s' | false ↦ (false, s') ]
]

-- `reason` of the result; `ok` is true for the first and the fourth.
pub data Reason : Type 0 where
  source_cache_unavailable target_cache_unavailable target_is_source seeded seed_io_error : Reason

pub record Report : Type 0 where
  pub reason : Reason
  pub existing : ℕ
  pub seeding : Seeding

abbrev pub unseeded : Directory → Seeding
unseeded target = record { target = target; linking = true; linked = 0; copied = 0 }

abbrev pub reason_of : Bool → Reason
reason_of true = seeded
reason_of false = seed_io_error

-- The loop of `seed`, and what it reports.
unfoldable pub seed_directories : System → Directory → Directory → Report
unfolding shards seed_loop
seed_directories system source target =
    let (going, s) = seed_loop system (shards target) (shards source) (unseeded target) in
    record { reason = reason_of going; existing = length (shards target); seeding = s }

-- `seed`: whether each path is a directory and no link, and whether they are the same.
unfoldable pub seed : System → Bool → Bool → Bool → Directory → Directory → Report
unfolding seed_directories
seed system source_there target_there same source target =
    let refuse : Reason → Report =
      λ reason. record { reason = reason; existing = 0; seeding = unseeded target } in
    if not source_there
    then refuse source_cache_unavailable
    else if not target_there
    then refuse target_cache_unavailable
    else if same
    then refuse target_is_source
    else seed_directories system source target
