-- ===== src/OrderedUnity/Grouping/Counted.antt =====
-- Behind the loop over the entries each index has been seen once: it is retained, or in a group.
use nvim_dot_files.Prelude.{
  ℕ, suc, ◌+◌, ◌≡◌, subst, Bool, true, false, List, [], ◌∷◌, ◌++◌, none, some, map, length, ltb,
  if◌then◌else◌, Bool-cases, inl, inr, arith, Eq-number, Eq-list, Eq-pair, ◌==◌,
}
use nvim_dot_files.Prelude.Texts.{Text}
use nvim_dot_files.Prelude.Result.{Result, ok, err}
use nvim_dot_files.Prelude.Sets.{mem, adjoin, mem-adjoin}
use nvim_dot_files.Prelude.Dicts.{at, assign, revise, values, option_or}
use nvim_dot_files.OrderedUnity.Parse.{Reason, Entry}
use nvim_dot_files.OrderedUnity.Grouping.{
  Setup, Item, GroupKey, HeaderCache, Groups, Grouping, item_of, source_key, retain, settle,
  group_entry, group_entries, no_groups,
}
use nvim_dot_files.OrderedUnity.Grouping.Items.{Fits, item_of-Fits}

-- How often a number stands in a list.
abbrev pub times : ℕ → List ℕ → ℕ
times i [] = 0
times i (j ∷ js) = (if i == j then 1 else 0) + times i js

pub times-append : (i : ℕ) (js ks : List ℕ) → times i (js ++ ks) ≡ times i js + times i ks
times-append i [] ks = omega arith
times-append i (j ∷ js) ks = omega (arith, times-append i js ks)

abbrev pub indexes : List Item → List ℕ
indexes = map (λ item. item.index)

-- How often an index stands in some lists of items.
abbrev pub counted : ℕ → List (List Item) → ℕ
counted i [] = 0
counted i (items ∷ lists) = times i (indexes items) + counted i lists

-- 1 where it is so
abbrev pub one_if : Bool → ℕ
one_if true = 1
one_if false = 0

pub indexes-append :
    (i : ℕ) (s t : List Item)
    → times i (indexes (s ++ t)) ≡ times i (indexes s) + times i (indexes t)
indexes-append i [] t = omega arith
indexes-append i (item ∷ s) t = omega (arith, indexes-append i s t)

counted-assign :
    (i : ℕ) (k : GroupKey) (items : List Item) (groups : Groups)
    → counted i (values (assign k items groups)) + times i (indexes (option_or [] (at k groups)))
      ≡ times i (indexes items) + counted i (values groups)
unfolding assign at
counted-assign i k items [] = omega arith
counted-assign i k items ((j, others) ∷ groups) = elim (Bool-cases (k == j)) [
  | inl same ↦ rw same (omega arith)
  | inr other ↦ rw other (omega (arith, counted-assign i k items groups))
]

counted-revise :
    (i : ℕ) (k : GroupKey) (item : Item) (groups : Groups)
    → counted i (values (revise k [] (λ items. items ++ item ∷ []) groups))
      ≡ one_if (i == item.index) + counted i (values groups)
unfolding revise
counted-revise i k item groups = ground (
  arith,
  counted-assign i k (option_or [] (at k groups) ++ item ∷ []) groups,
  indexes-append i (option_or [] (at k groups)) (item ∷ []),
)

-- Each index below `n` is retained, or stands in one group, once; and none from `n` on.
abbrev pub IsCounted : ℕ → Grouping → Type 0
IsCounted n g = (i : ℕ) → counted i (values g.groups) + one_if (mem i g.retained) ≡ one_if (ltb i n)

adjoined :
    (n : ℕ) (g : Grouping)
    → IsCounted n g
    → (i : ℕ)
    → counted i (values g.groups) + one_if (mem i (adjoin n g.retained)) ≡ one_if (ltb i (suc n))
adjoined n g h i = ground (arith, h i, mem-adjoin i n g.retained)

settle-IsCounted :
    (setup : Setup) (n : ℕ) (entry : Entry) (members : List Text) (g : Grouping)
    (headers : HeaderCache) (r : Result Reason (GroupKey × Item))
    → Fits setup n entry members r
    → IsCounted n g
    → IsCounted (suc n) (settle n entry g (headers, r))
settle-IsCounted setup n entry members g headers (err reason) fits h i = adjoined n g h i
settle-IsCounted setup n entry members g headers (ok (k, item)) (at_n, e, few) h i =
    ground (arith, h i, counted-revise i k item g.groups)

group_entry-IsCounted :
    (setup : Setup) (n : ℕ) (entry : Entry) (g : Grouping)
    → IsCounted n g
    → IsCounted (suc n) (group_entry setup n entry g)
unfolding group_entry
group_entry-IsCounted setup n entry g h =
    elim (at (source_key setup.host entry) setup.mapped)
      as (λ o. IsCounted (suc n) (elim o [
        | none ↦ retain n g
        | some members ↦
            settle n entry g (item_of setup n entry (source_key setup.host entry) members g.headers)
      ])) [
        | none ↦ adjoined n g h
        | some members ↦
            settle-IsCounted setup n entry members g _ _
              (item_of-Fits setup n entry members (source_key setup.host entry) g.headers) h
      ]

pub no_groups-IsCounted : IsCounted 0 no_groups
unfolding mem
no_groups-IsCounted i = ground arith

pub group_entries-IsCounted :
    (setup : Setup) (n m : ℕ) (entries : List Entry) (g : Grouping)
    → n + length entries ≡ m
    → IsCounted n g
    → IsCounted m (group_entries setup n entries g)
unfolding group_entries
group_entries-IsCounted setup n m [] g e h =
    let same : n ≡ m = omega arith in subst (λ j. IsCounted j g) same h
group_entries-IsCounted setup n m (entry ∷ entries) g e h =
    group_entries-IsCounted setup (suc n) m entries (group_entry setup n entry g) (omega arith)
      (group_entry-IsCounted setup n entry g h)
