-- ===== src/OrderedUnity/Grouping/Items.antt =====
-- What the item of an entry says: the entry's place, the entry, and no more members than the budget allows.
use nvim_dot_files.Prelude.{
  ℕ, ◌≡◌, ◌≤◌, refl, List, [], some, length, get_elem?, arith, Eq-number, Eq-list, Eq-pair,
}
use nvim_dot_files.Prelude.Texts.{Text}
use nvim_dot_files.Prelude.Result.{Result, ok, err, ◌>>=◌}
use nvim_dot_files.OrderedUnity.Parse.{Reason, Entry, Parsed, include_path}
use nvim_dot_files.OrderedUnity.Headers.{MacroState, context}
use nvim_dot_files.OrderedUnity.Grouping.{
  Setup, Item, GroupKey, HeaderCache, check_members, macros_of, source_class_of, make_item,
  after_parse, item_of,
}

abbrev pub IsItem : ℕ → List Entry → Item → Type 0
IsItem max_sources entries item =
    (get_elem? entries item.index ≡ some item.entry) × (length item.members ≤ max_sources)

module _ (setup : Setup) (index : ℕ) (entry : Entry) (members : List Text) where
  -- Of a result that holds an item.
  abbrev Says : Result Reason (GroupKey × Item) → Type 0
  Says (err reason) = Unit
  Says (ok (k, item)) = (item.index ≡ index) × (item.entry ≡ entry) × (item.members ≡ members)

  make_item-Says :
      (p : Parsed) (state : MacroState) → Says (make_item setup index entry members p state)
  unfolding make_item
  make_item-Says p state =
      both (source_class_of members)
        (include_path (setup.host.absolute (setup.host.join entry.directory entry.file)))
    where
      both :
          (class source : Result Reason Text)
          → Says (
              class >>= λ c. source >>= λ s. ok (
                (c, context setup.host entry p.common state),
                record {
                  index = index;
                  entry = entry;
                  source = s;
                  members = members;
                  common = p.common;
                  search = p.search;
                  definitions = p.definitions;
                  source_class = c;
                },
              ))
      both (err reason) source = tt
      both (ok c) (err reason) = tt
      both (ok c) (ok s) = (refl, refl, refl)

  abbrev Bounds : Result Reason (Unit {0}) → Type 0
  Bounds (err reason) = Unit
  Bounds (ok u) = length members ≤ setup.max_sources

  check_members-Bounds : (ident : Text) → Bounds (check_members setup entry ident members)
  unfolding check_members
  check_members-Bounds ident = ground arith

  abbrev pub Fits : Result Reason (GroupKey × Item) → Type 0
  Fits (err reason) = Unit
  Fits (ok (k, item)) =
      (item.index ≡ index) × (item.entry ≡ entry) × (length item.members ≤ setup.max_sources)

  fits :
      (r : Result Reason (GroupKey × Item)) → length members ≤ setup.max_sources → Says r → Fits r
  fits (err reason) bound says = tt
  fits (ok (k, item)) bound (i, e, m) = (i, e, rw m bound)

  after_parse-Says :
      (headers : HeaderCache) (parsed : Result Reason Parsed)
      → Says (after_parse setup index entry members headers parsed).1
  unfolding after_parse
  after_parse-Says headers (err reason) = tt
  after_parse-Says headers (ok p) = later (macros_of setup.host p.definitions [] headers).1
    where
      later :
          (state : Result Reason MacroState)
          → Says (state >>= make_item setup index entry members p)
      later (err reason) = tt
      later (ok state) = make_item-Says p state

  pub item_of-Fits :
      (ident : Text) (headers : HeaderCache)
      → Fits (item_of setup index entry ident members headers).1
  unfolding item_of after_parse
  item_of-Fits ident headers =
      go (check_members setup entry ident members) (check_members-Bounds ident)
    where
      go :
          (c : Result Reason (Unit {0}))
          → Bounds c
          → Fits
              (after_parse setup index entry members headers (c >>= λ u. setup.parse_entry entry)).1
      go (err reason) bound = tt
      go (ok u) bound = fits _ bound (after_parse-Says headers (setup.parse_entry entry))
