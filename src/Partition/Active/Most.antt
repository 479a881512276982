-- ===== src/Partition/Active/Most.antt =====
-- The group that `pick_active_auto` picks.
use nvim_dot_files.Prelude.{
  ◌≤◌, ◌≡◌, ◌⊎◌, refl, List, [], ◌∷◌, Option, none, some, length, ltb, All, Bool-cases, inl, inr,
  arith,
}
use nvim_dot_files.Partition.Groups.{Groups}
use nvim_dot_files.Partition.Active.{
  Group, is_candidate, has_platform, keep, longest, most, or_keep, pick_active_auto,
}

module _ {A : Type 0} where
  -- A group of the list, with its entries.
  pub data Among : Group → List A → Groups Group A → Type 0 where
    first : (k : Group) (es : List A) (groups : Groups Group A) → Among k es ((k, es) ∷ groups)
    later :
        (k j : Group) (es os : List A) (groups : Groups Group A)
        → Among k es groups
        → Among k es ((j, os) ∷ groups)

  -- A group of the list that no other exceeds.
  pub record IsLongest (k : Group) (groups : Groups Group A) : Type 0 where
    pub entries : List A
    pub among : Among k entries groups
    pub most_entries : All (λ (g : Group × List A). length g.1 ≤ length entries) groups

  Among-between :
      (i k j : Group) (ds es os : List A) (groups : Groups Group A)
      → Among i ds ((k, es) ∷ groups)
      → Among i ds ((k, es) ∷ (j, os) ∷ groups)
  Among-between i k j ds es os groups (first _ _ _) = first k es ((j, os) ∷ groups)
  Among-between i k j ds es os groups (later _ _ _ _ _ a) =
      later i k ds es ((j, os) ∷ groups) (later i j ds os groups a)

  longest-IsLongest :
      (k : Group) (es : List A) (groups : Groups Group A)
      → IsLongest (longest (k, es) groups) ((k, es) ∷ groups)
  unfolding longest
  longest-IsLongest k es [] = record {
    entries = es;
    among = first k es [];
    most_entries = (omega arith, tt);
  }
  longest-IsLongest k es ((j, os) ∷ groups) = elim (Bool-cases (ltb (length es) (length os))) [
    | inl more ↦
        let r = longest-IsLongest j os groups in
        rw (more, longest)
          (record {
            entries = r.entries;
            among = later _ k _ es ((j, os) ∷ groups) r.among;
            most_entries = (ground (arith, r.most_entries.0), r.most_entries);
          })
    | inr less ↦
        let r = longest-IsLongest k es groups in
        rw (less, longest)
          (record {
            entries = r.entries;
            among = Among-between _ k j _ es os groups r.among;
            most_entries = (r.most_entries.0, (ground (arith, r.most_entries.0), r.most_entries.1));
          })
  ]

  -- What is picked: the longest of the groups with a platform and a configuration, or, where there are
  -- none, of those with a platform; nothing only where no group has one.
  abbrev pub IsPick : Groups Group A → Option Group → Type 0
  IsPick groups none = (keep has_platform groups ≡ []) × (keep is_candidate groups ≡ [])
  IsPick groups (some k) =
      IsLongest k (keep is_candidate groups)
      ⊎ ((keep is_candidate groups ≡ []) × IsLongest k (keep has_platform groups))

  choose-IsPick :
      (groups cs ps : Groups Group A)
      → keep is_candidate groups ≡ cs
      → keep has_platform groups ≡ ps
      → IsPick groups (or_keep (most cs) (most ps))
  choose-IsPick groups [] [] c p = (p, c)
  choose-IsPick groups [] ((k, es) ∷ ps) c p = inr (c, rw p (longest-IsLongest k es ps))
  choose-IsPick groups ((k, es) ∷ cs) ps c p = inl (rw c (longest-IsLongest k es cs))

  -- The automatic choice is a largest group among those with a platform and a configuration, or, where
  -- there are none, among those with a platform; it is nothing only where no group has a platform.
  pub pick_active_auto-IsPick : (groups : Groups Group A) → IsPick groups (pick_active_auto groups)
  unfolding pick_active_auto
  pick_active_auto-IsPick groups =
      choose-IsPick groups (keep is_candidate groups) (keep has_platform groups) refl refl
