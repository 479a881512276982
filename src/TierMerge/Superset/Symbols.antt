-- ===== src/TierMerge/Superset/Symbols.antt =====
-- What it says of the symbols that `graph_superset` finds no violation in them.
use nvim_dot_files.Prelude.{
  ◌≡◌, ◌⊎◌, refl, ap, sym, Bool, true, false, ◌||◌, List, [], ◌∷◌, ◌++◌, none, map, All, All-append,
  if◌then◌else◌, Bool-cases, Option-cases, inl, inr, arith, Eq-number, Eq-list, ◌==◌, beq_eq,
  beq_self, nat_eq_iff, and_both,
}
use nvim_dot_files.Prelude.Sets.{mem, keep_if, mem-append}
use nvim_dot_files.Prelude.Dicts.{Dict, at, revise, option_or, at-revise}
use nvim_dot_files.IndexGraph.Reader.{Text}
use nvim_dot_files.IndexGraph.Shard.{Symbol}
use nvim_dot_files.IndexGraph.Key.{Key, symbol_key, location_key}
use nvim_dot_files.IndexGraph.Key.Compare.{Eq-key}
use nvim_dot_files.IndexGraph.Key.Injective.{symbol_key-injective, location_key-injective}
use nvim_dot_files.IndexGraph.Canonical.{Graph, is_empty}
use nvim_dot_files.TierMerge.Superset.{
  Table, file_symbols, graph_table, table_loop, table, same_fields, same_definition, row_violation,
  rows_loop, symbol_violations, symbols_loop,
}
use nvim_dot_files.TierMerge.Superset.Files.{append_empty}

abbrev pub keys_of_symbols : List Symbol → List Key
keys_of_symbols = map (λ s. symbol_key s)

-- The symbols of the files of some graphs, by their keys.
abbrev pub symbols_in : Graph → List Key
symbols_in [] = []
symbols_in ((uri, entry) ∷ graph) = keys_of_symbols entry.symbols ++ symbols_in graph

abbrev pub all_symbols : List Graph → List Key
all_symbols [] = []
all_symbols (graph ∷ graphs) = symbols_in graph ++ all_symbols graphs

abbrev rows : Text → Dict Text (List Symbol) → List Symbol
rows id found = option_or [] (at id found)

-- The rows of each symbol have its id, and are among some keys.
abbrev Holds : List Key → Dict Text (List Symbol) → Type 0
Holds known found =
    (id : Text)
    → All (λ (s : Symbol). (s.id ≡ id) × (mem (symbol_key s) known ≡ true)) (rows id found)

file_symbols-Holds :
    (known : List Key) (added : List Symbol) (found : Dict Text (List Symbol))
    → ((k : Key) → mem k (keys_of_symbols added) ≡ true → mem k known ≡ true)
    → Holds known found
    → Holds known (file_symbols added found)
unfolding file_symbols mem
file_symbols-Holds known [] found sub h = h
file_symbols-Holds known (s ∷ added) found sub h =
    file_symbols-Holds known added (revise s.id [] (λ rows. rows ++ s ∷ []) found)
      (λ k m. sub k (ground arith))
      λ id. elim (Bool-cases (id == s.id)) [
        | inl same ↦
            rw (at-revise id s.id [] (λ (r : List Symbol). r ++ s ∷ []) found, same)
              (All-append _ (rows id found) (s ∷ []) (h id) (
                (
                  sym (beq_eq id s.id same),
                  sub (symbol_key s) (ground (arith, beq_self (symbol_key s))),
                ),
                tt,
              ))
        | inr other ↦
            rw (at-revise id s.id [] (λ (r : List Symbol). r ++ s ∷ []) found, other) (h id)
      ]

graph_table-Holds :
    (known : List Key) (graph : Graph) (t : Table)
    → ((k : Key) → mem k (symbols_in graph) ≡ true → mem k known ≡ true)
    → Holds known t.symbols
    → Holds known (graph_table graph t).symbols
unfolding graph_table
graph_table-Holds known [] t sub h = h
graph_table-Holds known ((uri, entry) ∷ graph) t sub h =
    graph_table-Holds known graph _
      (λ k m.
        sub k (ground (arith, mem-append k (keys_of_symbols entry.symbols) (symbols_in graph))))
      (file_symbols-Holds known entry.symbols t.symbols
        (λ k m.
          sub k (ground (arith, mem-append k (keys_of_symbols entry.symbols) (symbols_in graph))))
        h)

pub table-Holds :
    (candidate : Graph) (id : Text)
    → All
        (λ (s : Symbol). (s.id ≡ id) × (mem (symbol_key s) (symbols_in candidate) ≡ true))
        (rows id (table (candidate ∷ [])).symbols)
unfolding table table_loop at
table-Holds candidate = graph_table-Holds (symbols_in candidate) candidate _ (λ k m. m) (λ id. tt)

map-append_keys :
    (xs ys : List Symbol) → keys_of_symbols (xs ++ ys) ≡ keys_of_symbols xs ++ keys_of_symbols ys
map-append_keys [] ys = refl
map-append_keys (x ∷ xs) ys = ap (λ (t : List Key). symbol_key x ∷ t) (map-append_keys xs ys)

other_key : (s r : Symbol) → (s.id == r.id) ≡ false → (symbol_key s == symbol_key r) ≡ false
other_key s r h = elim (Bool-cases (symbol_key s == symbol_key r)) [
  | inr other ↦ other
  | inl same ↦
      let e : s ≡ r = symbol_key-injective s r (beq_eq (symbol_key s) (symbol_key r) same) in
      let f : s.id ≡ r.id = ap (λ (x : Symbol). x.id) e in
      let g : (s.id == r.id) ≡ true = rw f (beq_self r.id) in cc (h, g)
]

-- A row that joins: it is found, and those before are.
row_step :
    (s r : Symbol) (k : Key) (found : Dict Text (List Symbol))
    → k ≡ symbol_key s
    → mem k (keys_of_symbols (rows s.id (revise r.id [] (λ rows. rows ++ r ∷ []) found))) ≡ (
        if s.id == r.id
        then mem k (keys_of_symbols (rows s.id found)) || k == symbol_key r
        else mem k (keys_of_symbols (rows s.id found)))
unfolding mem
row_step s r k found e = elim (Bool-cases (s.id == r.id)) [
  | inl same ↦
      rw
        (
          at-revise s.id r.id [] (λ (x : List Symbol). x ++ r ∷ []) found,
          same,
          map-append_keys (rows s.id found) (r ∷ []),
          mem-append k (keys_of_symbols (rows s.id found)) (symbol_key r ∷ []),
        )
        (ground arith)
  | inr other ↦ rw (at-revise s.id r.id [] (λ (x : List Symbol). x ++ r ∷ []) found, other) refl
]

-- Each symbol is among the rows of its id.
file_symbols-mem :
    (s : Symbol) (k : Key) (added : List Symbol) (found : Dict Text (List Symbol))
    → k ≡ symbol_key s
    → (mem k (keys_of_symbols added) || mem k (keys_of_symbols (rows s.id found))) ≡ true
    → mem k (keys_of_symbols (rows s.id (file_symbols added found))) ≡ true
unfolding file_symbols mem
file_symbols-mem s k [] found e h = h
file_symbols-mem s k (r ∷ added) found e h =
    let next = revise r.id [] (λ rows. rows ++ r ∷ []) found in
    file_symbols-mem s k added next e (elim (Bool-cases (s.id == r.id)) [
      | inl same ↦ ground (arith, row_step s r k found e)
      | inr other ↦
          let apart : (k == symbol_key r) ≡ false = rw e (other_key s r other) in
          ground (arith, row_step s r k found e)
    ])

graph_table-mem :
    (s : Symbol) (k : Key) (graph : Graph) (t : Table)
    → k ≡ symbol_key s
    → (mem k (symbols_in graph) || mem k (keys_of_symbols (rows s.id t.symbols))) ≡ true
    → mem k (keys_of_symbols (rows s.id (graph_table graph t).symbols)) ≡ true
unfolding graph_table mem
graph_table-mem s k [] t e h = h
graph_table-mem s k ((uri, entry) ∷ graph) t e h =
    graph_table-mem s k graph _ e (elim (Bool-cases (mem k (symbols_in graph))) [
      | inl later ↦ rw later refl
      | inr not_later ↦
          let now : mem k (keys_of_symbols (rows s.id (file_symbols entry.symbols t.symbols)))
              ≡ true =
            file_symbols-mem s k entry.symbols t.symbols e
              (ground (arith, mem-append k (keys_of_symbols entry.symbols) (symbols_in graph))) in
          rw (not_later, now) refl
    ])

table_loop-mem :
    (s : Symbol) (k : Key) (graphs : List Graph) (t : Table)
    → k ≡ symbol_key s
    → (mem k (all_symbols graphs) || mem k (keys_of_symbols (rows s.id t.symbols))) ≡ true
    → mem k (keys_of_symbols (rows s.id (table_loop graphs t).symbols)) ≡ true
unfolding table_loop mem
table_loop-mem s k [] t e h = h
table_loop-mem s k (graph ∷ graphs) t e h =
    table_loop-mem s k graphs _ e (elim (Bool-cases (mem k (all_symbols graphs))) [
      | inl later ↦ rw later refl
      | inr not_later ↦
          let now : mem k (keys_of_symbols (rows s.id (graph_table graph t).symbols)) ≡ true =
            graph_table-mem s k graph t e
              (ground (arith, mem-append k (symbols_in graph) (all_symbols graphs))) in
          rw (not_later, now) refl
    ])

-- The candidate has a symbol of the id with the same fields, and with the same definition, if there is
-- one.
pub record SymbolKept (candidate : Graph) (old : Symbol) : Type 0 where
  pub kept : Symbol
  pub there : mem (symbol_key kept) (symbols_in candidate) ≡ true
  pub id : kept.id ≡ old.id
  pub name : kept.name ≡ old.name
  pub scope : kept.scope ≡ old.scope
  pub signature : kept.signature ≡ old.signature
  pub kind : kept.kind ≡ old.kind
  pub definition : (is_empty old.definition.uri ≡ true) ⊎ (kept.definition ≡ old.definition)

full_inv :
    (P : Symbol → Type 0) (test : Symbol → Bool) (xs : List Symbol)
    → All P xs
    → is_empty (keep_if test xs) ≡ false
    → (s : Symbol) × (test s ≡ true) × P s
unfolding keep_if
full_inv P test [] h f = cc
full_inv P test (x ∷ xs) (here, rest) f = elim (Bool-cases (test x)) [
  | inl t ↦ (x, t, here)
  | inr not_here ↦ full_inv P test xs rest (rw not_here at f)
]

All-keep_if :
    (P : Symbol → Type 0) (test : Symbol → Bool) (xs : List Symbol)
    → All P xs
    → All (λ (s : Symbol). (test s ≡ true) × P s) (keep_if test xs)
unfolding keep_if
All-keep_if P test [] h = tt
All-keep_if P test (x ∷ xs) (here, rest) = elim (Bool-cases (test x)) [
  | inl t ↦ rw t ((t, here), All-keep_if P test xs rest)
  | inr not_here ↦ rw not_here (All-keep_if P test xs rest)
]

row_inv :
    (candidate : Graph) (id : Text) (available : List Symbol) (old : Symbol)
    → All
        (λ (s : Symbol). (s.id ≡ id) × (mem (symbol_key s) (symbols_in candidate) ≡ true))
        available
    → old.id ≡ id
    → row_violation id available old ≡ none
    → SymbolKept candidate old
unfolding row_violation same_fields same_definition
row_inv candidate id available old known own h =
    let matched = keep_if (same_fields old) available in
    elim (Bool-cases (is_empty matched)) [
      | inl missing ↦ cc (rw missing at h)
      | inr found ↦
          let h₁ = rw found at h in
          elim (Bool-cases (is_empty (keep_if (same_definition old) matched))) [
            | inl missing ↦ cc (rw missing at h₁)
            | inr full ↦
                let (s, defined, (fields, (id', there))) =
                  full_inv _ (same_definition old) matched
                    (All-keep_if _ (same_fields old) available known) full in
                let (name, r₁) = and_both _ _ fields in
                let (scope, r₂) = and_both _ _ r₁ in
                let (signature, kind) = and_both _ _ r₂ in
                record {
                  kept = s;
                  there = there;
                  id = cc (id', own);
                  name = beq_eq s.name old.name name;
                  scope = beq_eq s.scope old.scope scope;
                  signature = beq_eq s.signature old.signature signature;
                  kind = (nat_eq_iff s.kind old.kind).0 kind;
                  definition = elim (Bool-cases (is_empty old.definition.uri)) [
                    | inl undefined ↦ inl undefined
                    | inr is_defined ↦ inr (
                        location_key-injective s.definition old.definition (
                          beq_eq (location_key s.definition) (location_key old.definition)
                            (rw is_defined at defined)))
                  ];
                }
          ]
    ]

rows_loop_inv :
    (id : Text) (sites : List Key) (available rows : List Symbol) (ok : Bool)
    → rows_loop id sites available rows ok ≡ []
    → All (λ (s : Symbol). row_violation id available s ≡ none) rows
unfolding rows_loop
rows_loop_inv id sites available [] ok h = tt
rows_loop_inv id sites available (old ∷ rows) ok h =
    elim (Option-cases (row_violation id available old)) [
      | inl fine ↦ (fine, rows_loop_inv id sites available rows _ (rw (fine, rows_loop) at h))
      | inr (v, bad) ↦ cc (rw (bad, rows_loop) at h)
    ]

symbol_inv :
    (old : Table) (new : Dict Text (List Symbol)) (id : Text) (rows : List Symbol)
    → symbol_violations old new id rows ≡ []
    → All (λ (s : Symbol). row_violation id (option_or [] (at id new)) s ≡ none) rows
unfolding symbol_violations
symbol_inv old new id rows h = elim (Bool-cases (is_empty (option_or [] (at id new)))) [
  | inl missing ↦ cc (rw missing at h)
  | inr there ↦ rows_loop_inv id _ _ rows false (rw there at h)
]

symbols_loop_inv :
    (old : Table) (new symbols : Dict Text (List Symbol)) (id : Text)
    → symbols_loop old new symbols ≡ []
    → All
        (λ (s : Symbol). row_violation id (option_or [] (at id new)) s ≡ none)
        (option_or [] (at id symbols))
unfolding symbols_loop at
symbols_loop_inv old new [] id h = tt
symbols_loop_inv old new ((j, rows) ∷ symbols) id h =
    let (here, rest) = append_empty _ _ h in
    elim (Bool-cases (id == j)) [
      | inl same ↦
          rw same
            (let e : j ≡ id = sym (beq_eq id j same) in rw e at (symbol_inv old new j rows here))
      | inr other ↦ rw other (symbols_loop_inv old new symbols id rest)
    ]

All-mem :
    (P : Symbol → Type 0) (s : Symbol) (xs : List Symbol)
    → All P xs
    → mem (symbol_key s) (keys_of_symbols xs) ≡ true
    → P s
unfolding mem
All-mem P s [] h m = cc
All-mem P s (x ∷ xs) (here, rest) m = elim (Bool-cases (symbol_key s == symbol_key x)) [
  | inl same ↦
      let e : x ≡ s = sym (symbol_key-injective s x (beq_eq (symbol_key s) (symbol_key x) same)) in
      rw e at here
  | inr other ↦ All-mem P s xs rest (rw other at m)
]

pub symbols_kept :
    (originals : List Graph) (candidate : Graph) (s : Symbol)
    → symbols_loop (table originals) (table (candidate ∷ [])).symbols (table originals).symbols ≡ []
    → mem (symbol_key s) (all_symbols originals) ≡ true
    → SymbolKept candidate s
unfolding table
symbols_kept originals candidate s h m =
    let start : Table = record { symbols = []; declarations = [] } in
    let among : mem (symbol_key s)
          (keys_of_symbols (rows s.id (table_loop originals start).symbols))
        ≡ true =
      table_loop-mem s (symbol_key s) originals start refl (ground arith) in
    row_inv candidate s.id _ s (table-Holds candidate s.id) refl
      (All-mem _ s _ (symbols_loop_inv _ _ _ s.id h) among)
