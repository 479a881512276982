-- ===== src/OrderedUnity/Grouping.antt =====
-- The first half of `build_candidates` in tools/cdb_ordered_unity.py: which entries may stand in a
-- candidate, and with which others.
pub mod Items
pub mod Counted
pub mod Kept
use nvim_dot_files.Prelude.{
  ℕ, zero, suc, ◌+◌, Bool, true, false, not, ◌||◌, ◌&&◌, List, [], ◌∷◌, ◌++◌, Option, none, some,
  nat_eq, ltb, length, Eq-number, Eq-list, Eq-pair, ◌==◌, if◌then◌else◌, drop, ◌-◌, map,
}
use nvim_dot_files.Prelude.Texts.{Text, codes}
use nvim_dot_files.Prelude.Result.{Result, ok, err, ◌>>=◌}
use nvim_dot_files.Prelude.Sets.{some_of, adjoin}
use nvim_dot_files.Prelude.Dicts.{Dict, at, assign, revise, option_or, is_some}
use nvim_dot_files.Argv.Syntax.{lower}
use nvim_dot_files.OrderedUnity.Parse.{
  Host, Reason, ambiguous_membership, unavailable, member_not_absolute, exceeds_source_budget,
  mixed_original, ambiguous_membership_key, Entry, Parsed, key, include_path,
}
use nvim_dot_files.OrderedUnity.Headers.{Macro, MacroState, definitions, context}

abbrev pub Membership : Type 0
Membership = Dict Text (List Text)

-- `mapped`, by the keys of the paths
unfoldable pub map_membership : Host → Membership → Membership → Result Reason Membership
unfolding key at assign
map_membership host [] mapped = ok mapped
map_membership host ((path, members) ∷ membership) mapped =
    let ident = key host path in
    let rest = map_membership host membership (assign ident members mapped) in
    if is_some (at ident mapped) then err ambiguous_membership_key else rest

unfoldable pub source_key : Host → Entry → Text
unfolding key
source_key host entry = key host (host.join entry.directory entry.file)

-- `counter[x]`, of the counter of a list
unfoldable pub occurrences : Text → List Text → ℕ
occurrences x [] = 0
occurrences x (y ∷ ys) = (if x == y then 1 else 0) + occurrences x ys

-- The keys of all members of the entries.
unfoldable pub member_keys : Host → Membership → List Text → List Text
unfolding key at
member_keys host mapped [] = []
member_keys host mapped (ident ∷ source_keys) =
    map (key host) (option_or [] (at ident mapped)) ++ member_keys host mapped source_keys

-- The names of the run: its budgets, its maps, and how an entry is parsed.
pub record Setup : Type 0 where
  pub host : Host
  pub parse_entry : Entry → Result Reason Parsed
  pub max_sources : ℕ
  pub mapped : Membership
  pub source_keys : List Text

-- The parsed headers, with their digests.
abbrev pub HeaderCache : Type 0
HeaderCache = Dict Text (MacroState × Text)

pub record Item : Type 0 where
  pub index : ℕ
  pub entry : Entry
  pub source : Text
  pub members : List Text
  pub common : List Text
  pub search : List (List Text)
  pub definitions : List Text
  pub source_class : Text

-- The checks that come before the parse.
unfoldable pub check_members : Setup → Entry → Text → List Text → Result Reason (Unit {0})
unfolding occurrences some_of key member_keys
check_members setup entry ident members =
    let all_keys = member_keys setup.host setup.mapped setup.source_keys in
    if members == []
      || (not (nat_eq (occurrences ident setup.source_keys) 1)
          || some_of (λ p. not (nat_eq (occurrences (key setup.host p) all_keys) 1)) members)
    then err ambiguous_membership
    else if not (setup.host.is_absolute entry.directory) || not (setup.host.is_file ident)
    then err unavailable
    else if some_of (λ p. not (setup.host.is_absolute p)) members
    then err member_not_absolute
    else if ltb setup.max_sources (length members)
    then err exceeds_source_budget
    else ok tt

-- `state.update(other)`
unfoldable pub update : MacroState → MacroState → MacroState
unfolding assign
update state [] = state
update state ((name, m) ∷ other) = update (assign name m state) other

-- A header, from the cache where it is there: the cache that is left, and what it holds of the header.
unfoldable pub header_of :
    Host → Text → HeaderCache → HeaderCache × Result Reason (MacroState × Text)
unfolding at assign definitions
header_of host path headers = elim (at path headers) [
  | some found ↦ (headers, ok found)
  | none ↦ elim (definitions host path) [
    | ok found ↦ (assign path found headers, ok found)
    | err reason ↦ (headers, err reason)
  ]
]

-- The macros that the headers of an entry leave.
unfoldable pub macros_of :
    Host → List Text → MacroState → HeaderCache → HeaderCache × Result Reason MacroState
unfolding header_of update
macros_of host [] state headers = (headers, ok state)
macros_of host (path ∷ paths) state headers =
    let (later, answer) = header_of host path headers in
    elim answer [
      | ok found ↦ macros_of host paths (update state found.0) later
      | err reason ↦ (later, err reason)
    ]

-- `path.lower().endswith('.gen.cpp')`
unfoldable pub is_generated : Text → Bool
unfolding lower
is_generated path = drop (length path - 8) (lower path) == codes ".gen.cpp"

unfoldable pub count_generated : List Text → ℕ
unfolding is_generated
count_generated [] = 0
count_generated (p ∷ ps) = (if is_generated p then 1 else 0) + count_generated ps

unfoldable pub source_class_of : List Text → Result Reason Text
unfolding count_generated
source_class_of members =
    let generated = count_generated members in
    if ltb 0 generated && ltb generated (length members)
    then err mixed_original
    else if ltb 0 generated
    then ok (codes "generated-only")
    else ok (codes "implementation")

abbrev pub GroupKey : Type 0
GroupKey = Text × Text

-- The item of an entry and the key of its group, from its macros on.
unfoldable pub make_item :
    Setup → ℕ → Entry → List Text → Parsed → MacroState → Result Reason (GroupKey × Item)
unfolding source_class_of include_path context
make_item setup index entry members p state = source_class_of members >>= λ class.
    include_path (setup.host.absolute (setup.host.join entry.directory entry.file)) >>= λ source.
    ok (
      (class, context setup.host entry p.common state),
      record {
        index = index;
        entry = entry;
        source = source;
        members = members;
        common = p.common;
        search = p.search;
        definitions = p.definitions;
        source_class = class;
      },
    )

abbrev after_macros :
    Setup
    → ℕ
    → Entry
    → List Text
    → Parsed
    → HeaderCache × Result Reason MacroState
    → HeaderCache × Result Reason (GroupKey × Item)
after_macros setup index entry members p (headers, state) =
    (headers, (state >>= make_item setup index entry members p))

unfoldable pub after_parse :
    Setup
    → ℕ
    → Entry
    → List Text
    → HeaderCache
    → Result Reason Parsed
    → HeaderCache × Result Reason (GroupKey × Item)
unfolding macros_of make_item
after_parse setup index entry members headers (err reason) = (headers, err reason)
after_parse setup index entry members headers (ok p) =
    after_macros setup index entry members p (macros_of setup.host p.definitions [] headers)

-- The body of the `try`: the headers that it has read stay in the cache where it fails, too.
unfoldable pub item_of :
    Setup
    → ℕ
    → Entry
    → Text
    → List Text
    → HeaderCache
    → HeaderCache × Result Reason (GroupKey × Item)
unfolding check_members after_parse
item_of setup index entry ident members headers =
    after_parse setup index entry members headers
      (check_members setup entry ident members >>= λ u. setup.parse_entry entry)

pub record Rejection : Type 0 where
  pub entry_index : ℕ
  pub file : Text
  pub reason : Reason

abbrev pub Groups : Type 0
Groups = Dict GroupKey (List Item)

pub record Grouping : Type 0 where
  pub headers : HeaderCache
  pub groups : Groups
  pub retained : List ℕ
  pub rejections : List Rejection

abbrev pub retain : ℕ → Grouping → Grouping
retain index g = record {
  headers = g.headers;
  groups = g.groups;
  retained = adjoin index g.retained;
  rejections = g.rejections;
}

abbrev pub reject : ℕ → Entry → Reason → HeaderCache → Grouping → Grouping
reject index entry reason headers g = record {
  headers = headers;
  groups = g.groups;
  retained = adjoin index g.retained;
  rejections =
      g.rejections ++ record { entry_index = index; file = entry.file; reason = reason } ∷ [];
}

-- `groups.setdefault(key, []).append(item)`
abbrev pub enlist : GroupKey → Item → HeaderCache → Grouping → Grouping
enlist k item headers g = record {
  headers = headers;
  groups = revise k [] (λ items. items ++ item ∷ []) g.groups;
  retained = g.retained;
  rejections = g.rejections;
}

abbrev pub settle : ℕ → Entry → Grouping → HeaderCache × Result Reason (GroupKey × Item) → Grouping
settle index entry g (headers, ok (k, item)) = enlist k item headers g
settle index entry g (headers, err reason) = reject index entry reason headers g

unfoldable pub group_entry : Setup → ℕ → Entry → Grouping → Grouping
unfolding source_key at item_of adjoin revise
group_entry setup index entry g = elim (at (source_key setup.host entry) setup.mapped) [
  | none ↦ retain index g
  | some members ↦
      settle index entry g
        (item_of setup index entry (source_key setup.host entry) members g.headers)
]

unfoldable pub group_entries : Setup → ℕ → List Entry → Grouping → Grouping
unfolding group_entry
group_entries setup index [] g = g
group_entries setup index (entry ∷ entries) g =
    group_entries setup (suc index) entries (group_entry setup index entry g)

abbrev pub no_groups : Grouping
no_groups = record { headers = []; groups = []; retained = []; rejections = [] }
