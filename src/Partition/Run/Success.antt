-- ===== src/Partition/Run/Success.antt =====
-- A run that returns 0.
use nvim_dot_files.Prelude.{
  ◌≡◌, refl, Bool, true, false, ◌&&◌, List, [], ◌∷◌, ◌++◌, Option, none, some, Option-cases, length,
  if◌then◌else◌, ◌==◌, Eq-number, Eq-list, Eq-option, Eq-pair, Bool-cases, inl, inr, and_both, All,
  subst,
}
use nvim_dot_files.Prelude.Texts.{Text}
use nvim_dot_files.Partition.Groups.{Groups, entries_at, group_all, of_class, entries_at-group_all}
use nvim_dot_files.Partition.Active.{
  Group, known, has_platform, is_candidate, keep, pick_active_auto, parse_active_arg, first_named,
  named_by, split_slash, has_group,
}
use nvim_dot_files.Partition.Active.Most.{Among, first, later, IsPick, pick_active_auto-IsPick}
use nvim_dot_files.Partition.Run.{
  unclassified_key, Written, returns, base_if, group_files, write_groups, with_active,
  write_partition, partition,
}
use nvim_dot_files.Partition.Run.Base.{classified, entries_at-classified}

other_key : (k : Group) → has_platform k ≡ true → (unclassified_key == k) ≡ false
other_key (none, (q, c)) h = cc
other_key (some p, (q, c)) h = refl

module _ {A : Type 0} where
  keep-All :
      (test : Group → Bool) (groups : Groups Group A)
      → All (λ (g : Group × List A). test g.0 ≡ true) (keep test groups)
  unfolding keep
  keep-All test [] = tt
  keep-All test ((k, es) ∷ groups) = elim (Bool-cases (test k)) [
    | inl passes ↦ rw passes (passes, keep-All test groups)
    | inr fails ↦ rw fails (keep-All test groups)
  ]

  Among-All :
      (P : Group × List A → Type 0) (k : Group) (es : List A) (groups : Groups Group A)
      → Among k es groups
      → All P groups
      → P (k, es)
  Among-All P k es groups (first _ _ _) h = h.0
  Among-All P k es groups (later _ _ _ _ _ a) h = Among-All P k es _ a h.1

  keep-Among :
      (test : Group → Bool) (k : Group) (es : List A) (groups : Groups Group A)
      → Among k es (keep test groups)
      → test k ≡ true
  keep-Among test k es groups a =
      Among-All (λ (g : Group × List A). test g.0 ≡ true) k es (keep test groups) a
        (keep-All test groups)

  first_named-other :
      (platform config : Text) (k : Group) (groups : Groups Group A)
      → first_named platform config groups ≡ some k
      → (unclassified_key == k) ≡ false
  unfolding first_named
  first_named-other platform config k [] e = cc
  first_named-other platform config k (((none, (q, c)), es) ∷ groups) e =
      first_named-other platform config k groups e
  first_named-other platform config k (((some p, (q, c)), es) ∷ groups) e =
      go (p == platform && c == some config) e (first_named-other platform config k groups)
    where
      go :
          (b : Bool)
          → ◌≡◌ {A = Option Group}
              (if b then some (some p, (q, c)) else first_named platform config groups)
              (some k)
          → (first_named platform config groups ≡ some k → (unclassified_key == k) ≡ false)
          → (unclassified_key == k) ≡ false
      go true h f =
          let same : ◌≡◌ {A = Group} (some p, (q, c)) k = cc h in
          subst (λ (t : Group). (unclassified_key == t) ≡ false) same refl
      go false h f = f h

  -- The key that the run takes for active.
  abbrev pub chosen : Option Text → Groups Group A → Option Group
  chosen none groups = pick_active_auto groups
  chosen (some name) groups = parse_active_arg name groups

  pick-other :
      (groups : Groups Group A) (k : Group)
      → pick_active_auto groups ≡ some k
      → (unclassified_key == k) ≡ false
  pick-other groups k e =
      let known_platform : has_platform k ≡ true =
        of_pick (subst (IsPick groups) e (pick_active_auto-IsPick groups)) in
      other_key k known_platform
    where
      of_pick : IsPick groups (some k) → has_platform k ≡ true
      of_pick (inl longest) =
          (and_both (known k.0) (known k.1.1)
            (keep-Among is_candidate k longest.entries groups longest.among)).0
      of_pick (inr (nothing, longest)) =
          keep-Among has_platform k longest.entries groups longest.among

  named-other :
      (parts : List Text) (groups : Groups Group A) (k : Group)
      → named_by parts groups ≡ some k
      → (unclassified_key == k) ≡ false
  named-other [] groups k e = cc
  named-other (a ∷ []) groups k e = cc
  named-other (platform ∷ config ∷ []) groups k e = first_named-other platform config k groups e
  named-other (platform ∷ project ∷ config ∷ []) groups k e =
      go (has_group (some platform, (some project, some config)) groups) e
    where
      go :
          (b : Bool)
          → ◌≡◌ {A = Option Group}
              (if b then some (some platform, (some project, some config)) else none)
              (some k)
          → (unclassified_key == k) ≡ false
      go true h =
          let same : ◌≡◌ {A = Group} (some platform, (some project, some config)) k = cc h in
          subst (λ (t : Group). (unclassified_key == t) ≡ false) same refl
      go false h = cc
  named-other (a ∷ b ∷ c ∷ d ∷ parts) groups k e = cc

  chosen-other :
      (active : Option Text) (groups : Groups Group A) (k : Group)
      → chosen active groups ≡ some k
      → (unclassified_key == k) ≡ false
  chosen-other none groups k e = pick-other groups k e
  chosen-other (some name) groups k e =
      named-other (split_slash name) groups k (unfold parse_active_arg in e)

  record Success (rewrite : Bool) (active : Option Text) (groups : Groups Group A)
      (unclassified : List A) (w : Written A) : Type 0 where
    k : Group
    picked : chosen active groups ≡ some k
    written : w ≡ record {
      files = group_files groups;
      base = base_if rewrite (entries_at k groups ++ unclassified);
      manifest = some (some (k, length (entries_at k groups)), length unclassified);
    }

  write_groups_inv :
      (quiet rewrite : Bool) (active : Option Text) (groups : Groups Group A)
      (unclassified : List A) (o : Option Group) (w : Written A)
      → chosen active groups ≡ o
      → write_groups quiet rewrite groups unclassified o ≡ (returns 0, w)
      → Success rewrite active groups unclassified w
  unfolding write_groups
  write_groups_inv true rewrite active groups unclassified none w p e = cc
  write_groups_inv false rewrite active groups unclassified none w p e = cc
  write_groups_inv true rewrite active groups unclassified (some k) w p e = record {
    k = k;
    picked = p;
    written = cc e;
  }
  write_groups_inv false rewrite active groups unclassified (some k) w p e = record {
    k = k;
    picked = p;
    written = cc e;
  }

  named_inv :
      (quiet rewrite : Bool) (name : Text) (groups : Groups Group A) (unclassified : List A)
      (w : Written A)
      → with_active quiet rewrite (some name) groups unclassified ≡ (returns 0, w)
      → Success rewrite (some name) groups unclassified w
  unfolding with_active
  named_inv quiet rewrite name groups unclassified w e =
      elim (Option-cases (parse_active_arg name groups)) [
        | inl none_named ↦ cc (rw (none_named, with_active) at e)
        | inr (k, named) ↦
            write_groups_inv quiet rewrite (some name) groups unclassified (some k) w named
              (rw (named, with_active) at e)
      ]

  write_partition_inv :
      (quiet rewrite : Bool) (active : Option Text) (groups : Groups Group A)
      (unclassified : List A) (w : Written A)
      → write_partition quiet rewrite active groups unclassified ≡ (returns 0, w)
      → Success rewrite active groups unclassified w
  unfolding write_partition
  write_partition_inv quiet rewrite active [] unclassified w e = cc
  write_partition_inv quiet rewrite none (g ∷ groups) unclassified w e =
      write_groups_inv quiet rewrite none (g ∷ groups) unclassified (pick_active_auto (g ∷ groups))
        w refl (unfold with_active in e)
  write_partition_inv quiet rewrite (some name) (g ∷ groups) unclassified w e =
      named_inv quiet rewrite name (g ∷ groups) unclassified w e

module _ {A : Type 0} (classify : A → Group) where
  -- The base and the manifest that stand on disk at the end of a run that returns 0: the entries of the
  -- active group, in the order of the database, and then the unclassified ones; and their number.
  abbrev pub IsPartitioned : Bool → Option Text → List A → Written A → Type 0
  IsPartitioned rewrite active entries w =
      (k : Group) × (chosen active (classified classify entries) ≡ some k)
      × (w.base
          ≡ base_if rewrite
              (of_class classify k entries ++ of_class classify unclassified_key entries))
      × (w.manifest
          ≡ some (
            some (k, length (of_class classify k entries)),
            length (of_class classify unclassified_key entries),
          ))

  -- A run that returns 0 has found an active group, the automatic choice or the named one. If it rewrites
  -- the base, it leaves there that group's entries, all of them and in order, with the unclassified ones
  -- behind them, and the manifest counts both.
  pub partition-IsPartitioned :
      (quiet rewrite : Bool) (active : Option Text) (entries : List A) (w : Written A)
      → partition classify quiet rewrite active entries ≡ (returns 0, w)
      → IsPartitioned rewrite active entries w
  unfolding partition
  partition-IsPartitioned quiet rewrite active [] w e = cc
  partition-IsPartitioned quiet rewrite active (x ∷ xs) w e =
      let groups : Groups Group A = classified classify (x ∷ xs) in
      let rest : List A = entries_at unclassified_key (group_all classify (x ∷ xs)) in
      let s = write_partition_inv quiet rewrite active groups rest w e in
      let here : entries_at s.k groups ≡ of_class classify s.k (x ∷ xs) =
        entries_at-classified classify s.k (x ∷ xs) (chosen-other active groups s.k s.picked) in
      let others : rest ≡ of_class classify unclassified_key (x ∷ xs) =
        entries_at-group_all classify unclassified_key (x ∷ xs) in
      (s.k, s.picked, rw s.written (rw (here, others) refl), rw s.written (rw (here, others) refl))
