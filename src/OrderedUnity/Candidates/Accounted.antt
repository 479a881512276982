-- ===== src/OrderedUnity/Candidates/Accounted.antt =====
-- `build_candidates`: each entry stays or is in one candidate, and the candidates keep the budgets.
use nvim_dot_files.Prelude.{
  ℕ, suc, ◌+◌, ◌≡◌, ◌≤◌, ◌∙◌, refl, ap, subst, Bool, true, false, ◌||◌, List, [], ◌∷◌, map, All,
  length, get_elem?, arith, Eq-number, ltb, if◌then◌else◌, Bool-cases, inl, inr,
}
use nvim_dot_files.Prelude.Texts.{Text}
use nvim_dot_files.Prelude.Result.{Result, ok, err, ◌>>=◌, >>=-elim-ok}
use nvim_dot_files.Prelude.Sets.{mem}
use nvim_dot_files.Prelude.Dicts.{values}
use nvim_dot_files.OrderedUnity.Parse.{Host, Reason, candidate_budgets, Entry, Parsed}
use nvim_dot_files.OrderedUnity.Grouping.{
  Membership, map_membership, Setup, source_key, group_entries, no_groups,
}
use nvim_dot_files.OrderedUnity.Grouping.Counted.{
  times, one_if, no_groups-IsCounted, group_entries-IsCounted,
}
use nvim_dot_files.OrderedUnity.Grouping.Kept.{group_entries-IsKept}
use nvim_dot_files.OrderedUnity.Candidates.{
  Made, Outcome, make_candidates, all_chunks, retained_entries, build_from, build_candidates,
}
use nvim_dot_files.OrderedUnity.Candidates.Chunked.{
  counted-all_chunks, all_chunks-All, all_chunks-IsWithin,
}
use nvim_dot_files.OrderedUnity.Candidates.Records.{
  listed, IsRecord, make_candidates-IsTallied, make_candidates-IsRecord,
}
use nvim_dot_files.OrderedUnity.Grouping.Items.{IsItem}

-- The entries whose indexes, from some index on, are not in a list.
abbrev pub entries_outside : List ℕ → ℕ → List Entry → List Entry
entries_outside js index [] = []
entries_outside js index (entry ∷ entries) =
    if mem index js
    then entries_outside js (suc index) entries
    else entry ∷ entries_outside js (suc index) entries

-- Each index of an entry is used once at most, and no other; the other entries stay, in their order.
abbrev pub IsAccounted : List Entry → Outcome → Type 0
IsAccounted entries outcome =
    ((i : ℕ) → times i (listed outcome.groups) ≤ one_if (ltb i (length entries)))
    × (outcome.entries_kept ≡ entries_outside (listed outcome.groups) 0 entries)

times-mem : (i : ℕ) (js : List ℕ) → times i js ≤ 1 → times i js ≡ one_if (mem i js)
unfolding mem
times-mem i [] h = refl
times-mem i (j ∷ js) h = ground (arith, times-mem i js)

outside_lem :
    (retained js : List ℕ) (n index : ℕ) (entries : List Entry)
    → index + length entries ≡ n
    → ((i : ℕ) → times i js + one_if (mem i retained) ≡ one_if (ltb i n))
    → retained_entries retained index entries ≡ entries_outside js index entries
unfolding retained_entries
outside_lem retained js n index [] e h = refl
outside_lem retained js n index (entry ∷ entries) e h =
    let rest = outside_lem retained js n (suc index) entries (omega arith) h in
    let once : times index js + one_if (mem index retained) ≡ 1 = ground (arith, h index) in
    let counts = times-mem index js (omega arith) in
    elim (Bool-cases (mem index js)) [
      | inl listed_one ↦
          let gone : mem index retained ≡ false = ground arith in rw (listed_one, gone) rest
      | inr other ↦
          let stays : mem index retained ≡ true = ground arith in
          rw (other, stays) (ap (λ (t : List Entry). entry ∷ t) rest)
    ]

account_lem :
    (entries : List Entry) (outcome : Outcome) (retained : List ℕ)
    → outcome.entries_kept ≡ retained_entries retained 0 entries
    → ((i : ℕ)
        → times i (listed outcome.groups) + one_if (mem i retained)
          ≡ one_if (ltb i (length entries)))
    → IsAccounted entries outcome
account_lem entries outcome retained e h = (
  λ i. ground (arith, h i),
  e ∙ outside_lem retained (listed outcome.groups) (length entries) 0 entries (omega arith) h,
)

build_from-IsAccounted :
    (setup : Setup) (max_originals : ℕ) (output : Text) (entries : List Entry)
    → IsAccounted entries (build_from setup max_originals output entries)
unfolding build_from
build_from-IsAccounted setup max_originals output entries =
    let g = group_entries setup 0 entries no_groups in
    let chunks = all_chunks max_originals setup.max_sources (values g.groups) in
    let start : Made = record { records = []; retained = g.retained; written = [] } in
    let grouped =
      group_entries-IsCounted setup 0 (length entries) entries no_groups (omega arith)
        no_groups-IsCounted in
    let tallied =
      make_candidates-IsTallied setup.host output g.headers (λ i. ltb i (length entries)) chunks
        start
        (λ i. omega (
          arith,
          grouped i,
          counted-all_chunks max_originals setup.max_sources i (values g.groups),
        )) in
    let made = make_candidates setup.host output g.headers chunks start in
    account_lem entries (build_from setup max_originals output entries) made.retained refl
      (λ i. omega (arith, tallied i))

build_from-IsRecord :
    (setup : Setup) (max_originals : ℕ) (output : Text) (entries : List Entry)
    → 1 ≤ max_originals
    → All
        (IsRecord max_originals setup.max_sources entries)
        (build_from setup max_originals output entries).groups
unfolding build_from
build_from-IsRecord setup max_originals output entries p =
    let g = group_entries setup 0 entries no_groups in
    let kept =
      group_entries-IsKept setup entries 0 entries no_groups
        (λ j. ap (get_elem? entries) (omega arith)) tt in
    make_candidates-IsRecord setup.host output g.headers max_originals setup.max_sources entries
      (all_chunks max_originals setup.max_sources (values g.groups)) _
      (all_chunks-IsWithin max_originals setup.max_sources entries (values g.groups) p kept)
      (all_chunks-All max_originals setup.max_sources (IsItem setup.max_sources entries)
        (values g.groups) kept)
      tt

ok_eq : {a b : Outcome} → Path (Result Reason Outcome) (ok a) (ok b) → a ≡ b
ok_eq e = cc e

built :
    (host : Host) (parse_entry : Entry → Result Reason Parsed) (max_originals max_sources : ℕ)
    (output : Text) (entries : List Entry) (membership : Membership) (outcome : Outcome)
    → build_candidates host parse_entry max_originals max_sources output entries membership
      ≡ ok outcome
    → (setup : Setup) × (setup.max_sources ≡ max_sources)
      × (1 ≤ max_originals)
      × (build_from setup max_originals output entries ≡ outcome)
unfolding build_candidates
built host parse_entry max_originals max_sources output entries membership outcome h =
    go (ltb max_originals 2 || ltb max_sources 1) refl h
  where
    setup_of : Membership → Setup
    setup_of mapped = record {
      host = host;
      parse_entry = parse_entry;
      max_sources = max_sources;
      mapped = mapped;
      source_keys = map (source_key host) entries;
    }

    go :
        (refused : Bool)
        → (ltb max_originals 2 || ltb max_sources 1) ≡ refused
        → (if refused
            then err candidate_budgets
            else (map_membership host membership [] >>= λ mapped.
                ok (build_from (setup_of mapped) max_originals output entries)))
          ≡ ok outcome
        → (setup : Setup) × (setup.max_sources ≡ max_sources)
          × (1 ≤ max_originals)
          × (build_from setup max_originals output entries ≡ outcome)
    go true e h' = cc h'
    go false e h' =
        >>=-elim-ok (map_membership host membership []) _ h'
          λ mapped p q. (setup_of mapped, refl, ground arith, ok_eq q)

-- Of what `build_candidates` returns: each entry is in one candidate at most, once, and the entries that it
-- gives back are the others, all of them and in their order.
pub build_candidates-IsAccounted :
    (host : Host) (parse_entry : Entry → Result Reason Parsed) (max_originals max_sources : ℕ)
    (output : Text) (entries : List Entry) (membership : Membership) (outcome : Outcome)
    → build_candidates host parse_entry max_originals max_sources output entries membership
      ≡ ok outcome
    → IsAccounted entries outcome
build_candidates-IsAccounted host parse_entry max_originals max_sources output entries membership
      outcome h =
    let (setup, same, some_originals, e) =
      built host parse_entry max_originals max_sources output entries membership outcome h in
    subst (IsAccounted entries) e (build_from-IsAccounted setup max_originals output entries)

-- Of what `build_candidates` returns: each record is of two entries at least and of no more than the budget
-- of originals, has no more members than the budget of sources, and names its entries by their indexes.
pub build_candidates-IsRecord :
    (host : Host) (parse_entry : Entry → Result Reason Parsed) (max_originals max_sources : ℕ)
    (output : Text) (entries : List Entry) (membership : Membership) (outcome : Outcome)
    → build_candidates host parse_entry max_originals max_sources output entries membership
      ≡ ok outcome
    → All (IsRecord max_originals max_sources entries) outcome.groups
build_candidates-IsRecord host parse_entry max_originals max_sources output entries membership
      outcome h =
    let (setup, same, some_originals, e) =
      built host parse_entry max_originals max_sources output entries membership outcome h in
    subst (λ o. All (IsRecord max_originals max_sources entries) o.groups) e
      (subst
        (λ n.
          All (IsRecord max_originals n entries)
            (build_from setup max_originals output entries).groups)
        same (build_from-IsRecord setup max_originals output entries some_originals))
