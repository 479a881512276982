-- ===== src/Partition/Active.antt =====
-- The choice of the active group in tools/cdb_partition.py.
pub mod Most
use nvim_dot_files.Prelude.{
  ℕ, zero, suc, Bool, true, false, not, ◌&&◌, ◌||◌, List, [], ◌∷◌, ◌++◌, Option, none, some, length,
  ltb, if◌then◌else◌, ◌==◌, Eq-number, Eq-list, Eq-option, Eq-pair,
}
use nvim_dot_files.Prelude.Texts.{Text, codes}
use nvim_dot_files.Partition.Groups.{Groups}

-- Platform, project and configuration.
abbrev pub Group : Type 0
Group = Option Text × (Option Text × Option Text)

-- A name that is there, and not empty.
abbrev pub known : Option Text → Bool
known none = false
known (some []) = false
known (some (c ∷ t)) = true

-- `k[0] and k[2]`
abbrev pub is_candidate : Group → Bool
is_candidate (platform, (project, config)) = known platform && known config

-- `k[0]`
abbrev pub has_platform : Group → Bool
has_platform (platform, (project, config)) = known platform

abbrev pub or_keep : Option Group → Option Group → Option Group
or_keep none other = other
or_keep (some k) other = some k

module _ {A : Type 0} where
  -- The groups whose key passes a test.
  unfoldable pub keep : (Group → Bool) → Groups Group A → Groups Group A
  keep test [] = []
  keep test ((k, entries) ∷ groups) =
      let rest = keep test groups in if test k then (k, entries) ∷ rest else rest

  -- `max(groups, key=len)` on the groups after a first one: the first of the longest.
  unfoldable pub longest : Group × List A → Groups Group A → Group
  longest (k, entries) [] = k
  longest (k, entries) ((j, others) ∷ groups) = elim (ltb (length entries) (length others)) [
    | true ↦ longest (j, others) groups
    | false ↦ longest (k, entries) groups
  ]

  abbrev pub most : Groups Group A → Option Group
  most [] = none
  most (g ∷ groups) = some (longest g groups)

  unfoldable pub pick_active_auto : Groups Group A → Option Group
  unfolding keep longest
  pick_active_auto groups =
      or_keep (most (keep is_candidate groups)) (most (keep has_platform groups))

  -- `for k in groups`, for a platform and a configuration.
  unfoldable pub first_named : Text → Text → Groups Group A → Option Group
  first_named platform config [] = none
  first_named platform config (((p, (project, c)), entries) ∷ groups) =
      if p == some platform && c == some config
      then some (p, (project, c))
      else first_named platform config groups

  unfoldable pub has_group : Group → Groups Group A → Bool
  has_group key [] = false
  has_group key ((k, entries) ∷ groups) = k == key || has_group key groups

abbrev onto_first : ℕ → List Text → List Text
onto_first c [] = (c ∷ []) ∷ []
onto_first c (t ∷ ts) = (c ∷ t) ∷ ts

-- `s.split("/")`
unfoldable pub split_slash : Text → List Text
split_slash [] = [] ∷ []
split_slash (c ∷ t) =
    let parts = split_slash t in if c == b'/' then [] ∷ parts else onto_first c parts

module _ {A : Type 0} where
  abbrev pub named_by : List Text → Groups Group A → Option Group
  named_by [] groups = none
  named_by (a ∷ []) groups = none
  named_by (platform ∷ config ∷ []) groups = first_named platform config groups
  named_by (platform ∷ project ∷ config ∷ []) groups =
      let k : Group = (some platform, (some project, some config)) in
      if has_group k groups then some k else none
  named_by (a ∷ b ∷ c ∷ d ∷ parts) groups = none

  unfoldable pub parse_active_arg : Text → Groups Group A → Option Group
  unfolding first_named has_group split_slash
  parse_active_arg s groups = named_by (split_slash s) groups
