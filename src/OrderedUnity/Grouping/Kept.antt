-- ===== src/OrderedUnity/Grouping/Kept.antt =====
-- Every item of every group is one of the entries, at its place.
use nvim_dot_files.Prelude.{
  ℕ, suc, ◌+◌, ◌≡◌, ◌∙◌, sym, ap, subst, List, [], ◌∷◌, ◌++◌, none, some, All, All-append,
  get_elem?, Bool-cases, inl, inr, arith, Eq-number, Eq-list, Eq-pair, ◌==◌,
}
use nvim_dot_files.Prelude.Texts.{Text}
use nvim_dot_files.Prelude.Result.{Result, ok, err}
use nvim_dot_files.Prelude.Dicts.{at, assign, revise, values, option_or}
use nvim_dot_files.OrderedUnity.Parse.{Reason, Entry}
use nvim_dot_files.OrderedUnity.Grouping.{
  Setup, Item, GroupKey, HeaderCache, Groups, Grouping, item_of, source_key, retain, settle,
  group_entry, group_entries,
}
use nvim_dot_files.OrderedUnity.Grouping.Items.{IsItem, Fits, item_of-Fits}

module _ (P : Item → Type 0) where
  at-All :
      (k : GroupKey) (groups : Groups)
      → All (All P) (values groups)
      → All P (option_or [] (at k groups))
  unfolding at
  at-All k [] h = tt
  at-All k ((j, items) ∷ groups) (here, rest) = elim (Bool-cases (k == j)) [
    | inl same ↦ rw same here
    | inr other ↦ rw other (at-All k groups rest)
  ]

  assign-All :
      (k : GroupKey) (items : List Item) (groups : Groups)
      → All P items
      → All (All P) (values groups)
      → All (All P) (values (assign k items groups))
  unfolding assign
  assign-All k items [] p h = (p, tt)
  assign-All k items ((j, others) ∷ groups) p (here, rest) = elim (Bool-cases (k == j)) [
    | inl same ↦ rw same (p, rest)
    | inr other ↦ rw other (here, assign-All k items groups p rest)
  ]

  enlist-All :
      (k : GroupKey) (item : Item) (groups : Groups)
      → P item
      → All (All P) (values groups)
      → All (All P) (values (revise k [] (λ items. items ++ item ∷ []) groups))
  unfolding revise
  enlist-All k item groups p h =
      assign-All k _ groups
        (All-append P (option_or [] (at k groups)) (item ∷ []) (at-All k groups h) (p, tt)) h

module _ (setup : Setup) (all : List Entry) where
  abbrev IsKept : Grouping → Type 0
  IsKept g = All (All (IsItem setup.max_sources all)) (values g.groups)

  settle-IsKept :
      (n : ℕ) (entry : Entry) (members : List Text) (g : Grouping) (headers : HeaderCache)
      (r : Result Reason (GroupKey × Item))
      → get_elem? all n ≡ some entry
      → Fits setup n entry members r
      → IsKept g
      → IsKept (settle n entry g (headers, r))
  settle-IsKept n entry members g headers (err reason) e fits h = h
  settle-IsKept n entry members g headers (ok (k, item)) e (at_n, same, few) h =
      enlist-All (IsItem setup.max_sources all) k item g.groups
        (ap (get_elem? all) at_n ∙ e ∙ ap some (sym same), few) h

  group_entry-IsKept :
      (n : ℕ) (entry : Entry) (g : Grouping)
      → get_elem? all n ≡ some entry
      → IsKept g
      → IsKept (group_entry setup n entry g)
  unfolding group_entry
  group_entry-IsKept n entry g e h =
      elim (at (source_key setup.host entry) setup.mapped)
        as (λ o. IsKept (elim o [
          | none ↦ retain n g
          | some members ↦
              settle n entry g
                (item_of setup n entry (source_key setup.host entry) members g.headers)
        ])) [
          | none ↦ h
          | some members ↦
              settle-IsKept n entry members g _ _ e
                (item_of-Fits setup n entry members (source_key setup.host entry) g.headers) h
        ]

  pub group_entries-IsKept :
      (n : ℕ) (entries : List Entry) (g : Grouping)
      → ((j : ℕ) → get_elem? entries j ≡ get_elem? all (n + j))
      → IsKept g
      → IsKept (group_entries setup n entries g)
  unfolding group_entries
  group_entries-IsKept n [] g e h = h
  group_entries-IsKept n (entry ∷ entries) g e h =
      let here : get_elem? all n ≡ some entry =
        subst (λ i. get_elem? all i ≡ some entry) (omega arith) (sym (e 0)) in
      group_entries-IsKept (suc n) entries (group_entry setup n entry g)
        (λ j. e (suc j) ∙ ap (get_elem? all) (omega arith)) (group_entry-IsKept n entry g here h)
