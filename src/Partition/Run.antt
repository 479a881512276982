-- ===== src/Partition/Run.antt =====
-- `main` of tools/cdb_partition.py, from the entries that it has read on: what it writes and returns.
pub mod Base
pub mod Success
use nvim_dot_files.Prelude.{
  ℕ, zero, suc, ◌+◌, ◌≡◌, Bool, true, false, not, ◌&&◌, ◌||◌, List, [], ◌∷◌, ◌++◌, Option, none,
  some, length, ltb, leb, map, if◌then◌else◌, ◌==◌, Eq-number, Eq-list, Eq-option, Eq-pair, arith,
}
use nvim_dot_files.Prelude.Texts.{Text, codes}
use nvim_dot_files.Prelude.Sorting.{Order, sorted_by}
use nvim_dot_files.Partition.Groups.{Groups, entries_at, without, group_all}
use nvim_dot_files.Partition.Active.{Group, pick_active_auto, parse_active_arg}

abbrev pub unclassified_key : Group
unclassified_key = (none, (none, none))

-- `p or 'unknown'`
abbrev or_unknown : Option Text → Text
or_unknown none = codes "unknown"
or_unknown (some []) = codes "unknown"
or_unknown (some (c ∷ t)) = c ∷ t

unfoldable pub group_filename : Group → Bool → Text
group_filename (platform, (project, config)) needs_project =
    if needs_project
    then codes "compile_commands."
      ++ or_unknown platform
      ++ codes "-"
      ++ or_unknown project
      ++ codes "-"
      ++ or_unknown config
      ++ codes ".json"
    else codes "compile_commands."
      ++ or_unknown platform
      ++ codes "-"
      ++ or_unknown config
      ++ codes ".json"

-- The groups with the platform and the configuration of a key, counted.
unfoldable pub plat_cfg_count {ℓ} : {A : Type ℓ} → Group → List (Group × A) → ℕ
plat_cfg_count key [] = 0
plat_cfg_count (platform, (project, config)) (((p, (q, c)), entries) ∷ groups) =
    let n = plat_cfg_count (platform, (project, config)) groups in
    if p == platform && c == config then suc n else n

pub longer_total : (a b : ℕ) → leb b a ≡ false → leb a b ≡ true
longer_total a b h = ground arith

pub longer_antisym : (a b : ℕ) → leb b a ≡ true → leb a b ≡ true → a ≡ b
longer_antisym a b h k = ground arith

pub longer_trans : (a b c : ℕ) → leb b a ≡ true → leb c b ≡ true → leb c a ≡ true
longer_trans a b c h k = ground arith

-- `-len(entries)` as a key: the longer come first.
abbrev longer_first : Order ℕ
longer_first = record {
  le = λ a b. leb b a;
  total = longer_total;
  antisym = longer_antisym;
  trans = longer_trans;
}

-- What is left on disk: the files of the groups, the base where it was rewritten, and the manifest, with
-- the active group and its size where there is one.
pub record Written (A : Type 0) : Type 0 where
  pub files : List (Text × List A)
  pub base : Option (List A)
  pub manifest : Option (Option (Group × ℕ) × ℕ)

-- How `main` ends: it returns, or a `TypeError` leaves it.
pub data Ended : Type 0 where
  returns : ℕ → Ended
  type_error : Ended

module _ {A : Type 0} where
  abbrev pub nothing_written : Written A
  nothing_written = record { files = []; base = none; manifest = none }

  unfoldable pub file_of : Groups Group A → Group × List A → Text × List A
  unfolding group_filename plat_cfg_count
  file_of groups (k, entries) = (group_filename k (ltb 1 (plat_cfg_count k groups)), entries)

  unfoldable pub group_files : Groups Group A → List (Text × List A)
  unfolding file_of
  group_files groups =
      map (file_of groups) (sorted_by longer_first (λ (g : Group × List A). length g.1) groups)

  abbrev pub base_if : Bool → List A → Option (List A)
  base_if true entries = some entries
  base_if false entries = none

  -- What follows the choice of the active group. Without one, `groups[None]` puts a key into the groups
  -- that the next loop cannot index, or, where nothing is printed, `active[0]` raises at the manifest.
  unfoldable pub write_groups :
      Bool → Bool → Groups Group A → List A → Option Group → Ended × Written A
  unfolding group_files entries_at
  write_groups quiet rewrite groups unclassified (some k) = (
    returns 0,
    record {
      files = group_files groups;
      base = base_if rewrite (entries_at k groups ++ unclassified);
      manifest = some (some (k, length (entries_at k groups)), length unclassified);
    },
  )
  write_groups true rewrite groups unclassified none = (
    type_error,
    record { files = group_files groups; base = base_if rewrite unclassified; manifest = none },
  )
  write_groups false rewrite groups unclassified none = (type_error, nothing_written)

  -- `--active`: "auto", or a name that must match a group.
  unfoldable pub with_active :
      Bool → Bool → Option Text → Groups Group A → List A → Ended × Written A
  unfolding write_groups pick_active_auto parse_active_arg
  with_active quiet rewrite none groups unclassified =
      write_groups quiet rewrite groups unclassified (pick_active_auto groups)
  with_active quiet rewrite (some name) groups unclassified = elim (parse_active_arg name groups) [
    | none ↦ (returns 4, nothing_written)
    | some k ↦ write_groups quiet rewrite groups unclassified (some k)
  ]

  unfoldable pub write_partition :
      Bool → Bool → Option Text → Groups Group A → List A → Ended × Written A
  unfolding with_active
  write_partition quiet rewrite active [] unclassified =
      (returns 3, record nothing_written { manifest = some (none, length unclassified) })
  write_partition quiet rewrite active (g ∷ groups) unclassified =
      with_active quiet rewrite active (g ∷ groups) unclassified

-- The run on a base that is a list; an empty one is refused.
unfoldable pub partition :
    {A : Type 0} → (A → Group) → Bool → Bool → Option Text → List A → Ended × Written A
unfolding write_partition group_all without entries_at
partition classify quiet rewrite active [] = (returns 2, nothing_written)
partition classify quiet rewrite active (e ∷ entries) =
    let groups = group_all classify (e ∷ entries) in
    write_partition quiet rewrite active (without unclassified_key groups)
      (entries_at unclassified_key groups)
