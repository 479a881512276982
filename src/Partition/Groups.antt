-- ===== src/Partition/Groups.antt =====
-- The groups of `main` in tools/cdb_partition.py: the entries by what `classify` says of them. The keys are
-- of any type with a test for equality; the tool's are platform, project and configuration.
use nvim_dot_files.Prelude.{
  ◌≡◌, refl, sym, ap, ◌∙◌, true, false, List, [], ◌∷◌, ◌++◌, append-nil, append_assoc,
  if◌then◌else◌, ◌==◌, Eq, beq_eq, beq_ne, Bool-cases, inl, inr, arith,
}

-- A dictionary of lists, its keys in the order of insertion.
abbrev pub Groups : Type 0 → Type 0 → Type 0
Groups K A = List (K × List A)

module _ {K : Type 0} ⦃eq : Eq K⦄ where
  same_test : (j k key : K) → (j == k) ≡ true → (j == key) ≡ (k == key)
  same_test j k key same = ap (λ (t : K). t == key) (beq_eq j k same)

  other_test : (j k key : K) → (j == k) ≡ false → (j == key) ≡ true → (k == key) ≡ false
  other_test j k key differ here = elim (Bool-cases (k == key)) [
    | inl there ↦ absurd (beq_ne j k differ (beq_eq j key here ∙ sym (beq_eq k key there)))
    | inr there ↦ there
  ]

module _ {K A : Type 0} ⦃eq : Eq K⦄ where
  -- `groups[key]`, of a `defaultdict(list)`
  unfoldable pub entries_at : K → Groups K A → List A
  entries_at key [] = []
  entries_at key ((k, entries) ∷ groups) = if k == key then entries else entries_at key groups

  -- `groups[key].append(entry)`
  unfoldable pub append_at : K → A → Groups K A → Groups K A
  append_at key entry [] = (key, entry ∷ []) ∷ []
  append_at key entry ((k, entries) ∷ groups) =
      let rest = append_at key entry groups in
      if k == key then (k, entries ++ entry ∷ []) ∷ groups else (k, entries) ∷ rest

  -- `groups.pop(key, [])`, what it leaves
  unfoldable pub without : K → Groups K A → Groups K A
  without key [] = []
  without key ((k, entries) ∷ groups) =
      let rest = without key groups in if k == key then groups else (k, entries) ∷ rest

  entries_at-append_at :
      (key k : K) (e : A) (groups : Groups K A)
      → entries_at key (append_at k e groups)
        ≡ (if k == key then entries_at key groups ++ e ∷ [] else entries_at key groups)
  unfolding entries_at append_at
  entries_at-append_at key k e [] = refl
  entries_at-append_at key k e ((j, es) ∷ groups) = elim (Bool-cases (j == k)) [
    | inl same ↦ rw same (rw (same_test j k key same) (ground arith))
    | inr differ ↦
        rw differ (ground (arith, other_test j k key differ, entries_at-append_at key k e groups))
  ]

  pub entries_at-without :
      (key other : K) (groups : Groups K A)
      → (other == key) ≡ false
      → entries_at key (without other groups) ≡ entries_at key groups
  unfolding entries_at without
  entries_at-without key other [] h = refl
  entries_at-without key other ((j, es) ∷ groups) h = elim (Bool-cases (j == other)) [
    | inl same ↦ rw same (rw (same_test j other key same, h) refl)
    | inr differ ↦ rw differ (ground (arith, entries_at-without key other groups h))
  ]

module _ {K A : Type 0} ⦃eq : Eq K⦄ (classify : A → K) where
  unfoldable pub group_from : Groups K A → List A → Groups K A
  unfolding append_at
  group_from groups [] = groups
  group_from groups (e ∷ entries) = group_from (append_at (classify e) e groups) entries

  unfoldable pub group_all : List A → Groups K A
  unfolding group_from
  group_all entries = group_from [] entries

  -- The entries of one class, in their order.
  unfoldable pub of_class : K → List A → List A
  of_class key [] = []
  of_class key (e ∷ entries) =
      let rest = of_class key entries in if classify e == key then e ∷ rest else rest

  entries_at-group_from :
      (key : K) (groups : Groups K A) (entries : List A)
      → entries_at key (group_from groups entries) ≡ entries_at key groups ++ of_class key entries
  unfolding group_from of_class
  entries_at-group_from key groups [] = sym (append-nil (entries_at key groups))
  entries_at-group_from key groups (e ∷ entries) =
      entries_at-group_from key (append_at (classify e) e groups) entries
      ∙ ap (λ (t : List A). t ++ of_class key entries)
          (entries_at-append_at key (classify e) e groups)
      ∙ (elim (Bool-cases (classify e == key)) [
        | inl here ↦ rw here (append_assoc (entries_at key groups) (e ∷ []) (of_class key entries))
        | inr other ↦ rw other refl
      ])

  -- Each group holds the entries that `classify` puts there, all of them and in the order of the database.
  pub entries_at-group_all :
      (key : K) (entries : List A) → entries_at key (group_all entries) ≡ of_class key entries
  unfolding group_all entries_at
  entries_at-group_all key entries = entries_at-group_from key [] entries
