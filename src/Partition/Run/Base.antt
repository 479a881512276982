-- ===== src/Partition/Run/Base.antt =====
-- The base that a run leaves.
use nvim_dot_files.Prelude.{
  ◌≡◌, ◌≢◌, refl, ap, ◌∙◌, Bool, true, false, ◌&&◌, List, [], ◌∷◌, none, some, if◌then◌else◌, ◌==◌,
  Eq-number, Eq-list, Eq-option, Eq-pair,
}
use nvim_dot_files.Partition.Groups.{
  Groups, entries_at, without, group_all, group_from, of_class, entries_at-group_all,
  entries_at-without,
}
use nvim_dot_files.Partition.Active.{
  Group, known, has_platform, is_candidate, keep, pick_active_auto,
}
use nvim_dot_files.Partition.Run.{
  unclassified_key, Written, Ended, type_error, group_files, write_groups, with_active,
  write_partition, partition,
}

module _ {A : Type 0} (classify : A → Group) where
  -- What `groups` is once the unclassified entries are taken out.
  abbrev pub classified : List A → Groups Group A
  classified entries = without unclassified_key (group_all classify entries)

  pub entries_at-classified :
      (k : Group) (entries : List A)
      → (unclassified_key == k) ≡ false
      → entries_at k (classified entries) ≡ of_class classify k entries
  entries_at-classified k entries h =
      entries_at-without k unclassified_key (group_all classify entries) h
      ∙ entries_at-group_all classify k entries

  keep_empty :
      (groups : Groups Group A) → keep has_platform groups ≡ [] → keep is_candidate groups ≡ []
  unfolding keep
  keep_empty [] h = refl
  keep_empty (((p, (q, c)), es) ∷ groups) h = go (known p) (known c) h (keep_empty groups)
    where
      go :
          (x y : Bool)
          → ◌≡◌ {A = Groups Group A}
              (if x then ((p, (q, c)), es) ∷ keep has_platform groups else keep has_platform groups)
              []
          → (keep has_platform groups ≡ [] → keep is_candidate groups ≡ [])
          → ◌≡◌ {A = Groups Group A}
              (if x && y
                then ((p, (q, c)), es) ∷ keep is_candidate groups
                else keep is_candidate groups)
              []
      go true y e f = cc
      go false y e f = f e

  pick_none :
      (groups : Groups Group A) → keep has_platform groups ≡ [] → pick_active_auto groups ≡ none
  unfolding pick_active_auto
  pick_none groups h = rw (keep_empty groups h, h) refl

  write_auto :
      (quiet rewrite : Bool) (groups : Groups Group A) (unclassified : List A)
      → groups ≢ []
      → write_partition quiet rewrite none groups unclassified
        ≡ write_groups quiet rewrite groups unclassified (pick_active_auto groups)
  unfolding write_partition with_active
  write_auto quiet rewrite [] unclassified h = absurd (h refl)
  write_auto quiet rewrite (g ∷ groups) unclassified h = refl

  write_lost :
      (groups : Groups Group A) (unclassified : List A)
      → groups ≢ []
      → keep has_platform groups ≡ []
      → write_partition true true none groups unclassified ≡ (
        type_error,
        record { files = group_files groups; base = some unclassified; manifest = none },
      )
  write_lost groups unclassified some_group no_platform =
      write_auto true true groups unclassified some_group
      ∙ ap (write_groups true true groups unclassified) (pick_none groups no_platform)
      ∙ unfold write_groups in refl

  -- For a run that prints nothing and rewrites the base, where no group has a platform, the automatic
  -- choice finds no group, and the run ends in a `TypeError` after it has replaced the base by the
  -- unclassified entries alone.
  pub partition_without-platform :
      (entries : List A)
      → classified entries ≢ []
      → keep has_platform (classified entries) ≡ []
      → ((partition classify true true none entries).0 ≡ type_error)
        × ((partition classify true true none entries).1.base
            ≡ some (of_class classify unclassified_key entries))
  unfolding partition
  partition_without-platform [] some_group no_platform =
      absurd (some_group (unfold group_all group_from without in refl))
  partition_without-platform (e ∷ entries) some_group no_platform =
      let groups : Groups Group A = group_all classify (e ∷ entries) in
      let run =
        write_lost (without unclassified_key groups) (entries_at unclassified_key groups) some_group
          no_platform in
      (
        ap (λ (r : Ended × Written A). r.0) run,
        ap (λ (r : Ended × Written A). r.1.base) run
            ∙ ap some (entries_at-group_all classify unclassified_key (e ∷ entries)),
      )
