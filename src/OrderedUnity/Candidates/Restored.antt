-- ===== src/OrderedUnity/Candidates/Restored.antt =====
-- The pragmas of a candidate, as the preprocessor reads them: what a header of definitions or an original
-- does to the macros that are pushed is undone behind the original.
use nvim_dot_files.Prelude.{
  ℕ, zero, suc, ◌+◌, ◌≡◌, ◌≤◌, ◌⊎◌, ◌∙◌, refl, sym, ap, subst, true, false, List, [], ◌∷◌, ◌++◌,
  Option, map, arith, Eq-number, Eq-list, ◌==◌, if◌then◌else◌, Bool-cases, inl, inr, beq_eq,
  beq_self,
}
use nvim_dot_files.Prelude.Texts.{Text}
use nvim_dot_files.Prelude.Sets.{mem}
use nvim_dot_files.OrderedUnity.Grouping.{Item, occurrences}
use nvim_dot_files.OrderedUnity.Candidates.{
  Line, notice, original, push, pop, include, reverse_onto, item_lines, chunk_lines,
}

-- The value of each macro, and the values that are pushed.
pub record Preprocessor : Type 0 where
  pub macros : Text → Option Text
  pub stack : Text → List (Option Text)

abbrev set {ℓ} : {A : Type ℓ} → Text → A → (Text → A) → Text → A
set name a f other = if other == name then a else f other

abbrev pub popped : Text → List (Option Text) → Preprocessor → Preprocessor
popped name [] s = s
popped name (value ∷ below) s = record {
  macros = set name value s.macros;
  stack = set name below s.stack;
}

-- A line; an included file does anything to the macros, and leaves what is pushed.
abbrev pub run_line :
    (Text → (Text → Option Text) → Text → Option Text) → Line → Preprocessor → Preprocessor
run_line effect notice s = s
run_line effect (original source) s = s
run_line effect (push name) s = record {
  macros = s.macros;
  stack = set name (s.macros name ∷ s.stack name) s.stack;
}
run_line effect (pop name) s = popped name (s.stack name) s
run_line effect (include path) s = record { macros = effect path s.macros; stack = s.stack }

abbrev pub run_lines :
    (Text → (Text → Option Text) → Text → Option Text) → List Line → Preprocessor → Preprocessor
run_lines effect [] s = s
run_lines effect (line ∷ lines) s = run_lines effect lines (run_line effect line s)

-- A value, some times upon a stack.
abbrev piled : ℕ → Option Text → List (Option Text) → List (Option Text)
piled zero value below = below
piled (suc n) value below = piled n value (value ∷ below)

piled-suc :
    (n : ℕ) (value : Option Text) (below : List (Option Text))
    → piled (suc n) value below ≡ value ∷ piled n value below
piled-suc zero value below = refl
piled-suc (suc n) value below = piled-suc n value (value ∷ below)

occurrences-reverse :
    (name : Text) (xs back : List Text)
    → occurrences name (reverse_onto xs back) ≡ occurrences name xs + occurrences name back
unfolding occurrences reverse_onto
occurrences-reverse name [] back = omega arith
occurrences-reverse name (x ∷ xs) back = omega (arith, occurrences-reverse name xs (x ∷ back))

occurrences_back :
    (names : List Text) (name : Text)
    → occurrences name (reverse_onto names []) ≡ occurrences name names
unfolding occurrences
occurrences_back names name = omega (arith, occurrences-reverse name names [])

occurrences-mem : (name : Text) (xs : List Text) → mem name xs ≡ true → 1 ≤ occurrences name xs
unfolding occurrences mem
occurrences-mem name [] h = cc h
occurrences-mem name (x ∷ xs) h = ground (arith, occurrences-mem name xs)

-- A push, below the pushes that follow.
pile_push :
    (n : ℕ) (x name : Text) (values : Text → Option Text) (stack : Text → List (Option Text))
    → piled n (values name) (set x (values x ∷ stack x) stack name)
      ≡ piled ((if name == x then 1 else 0) + n) (values name) (stack name)
pile_push n x name values stack = elim (Bool-cases (name == x)) [
  | inl same ↦
      let more : suc n ≡ 1 + n = omega arith in
      rw same (
        subst
          (λ y.
            piled n (values name) (values y ∷ stack y) ≡ piled (1 + n) (values name) (stack name))
          (beq_eq name x same) (ap (λ k. piled k (values name) (stack name)) more))
  | inr other ↦
      let none_more : n ≡ 0 + n = omega arith in
      rw other (ap (λ k. piled k (values name) (stack name)) none_more)
]

no_more : (a b : Option Text) → (1 ≤ 0) ⊎ (a ≡ b) → a ≡ b
no_more a b (inl more) = absurd (omega arith)
no_more a b (inr e) = e

-- What is on the stacks before the pops of some names.
abbrev IsPiled :
    List Text → (Text → Option Text) → (Text → List (Option Text)) → Preprocessor → Type 0
IsPiled names values below s =
    (name : Text) → s.stack name ≡ piled (occurrences name names) (values name) (below name)

module _ (y : Text) (names : List Text) (values : Text → Option Text)
    (below : Text → List (Option Text)) where
  abbrev after_pop : Preprocessor → Preprocessor
  after_pop s = popped y (values y ∷ piled (occurrences y names) (values y) (below y)) s

  popped_once :
      (s : Preprocessor) → IsPiled (y ∷ names) values below s → popped y (s.stack y) s ≡ after_pop s
  unfolding occurrences
  popped_once s h =
      let one_more : occurrences y (y ∷ names) ≡ suc (occurrences y names) =
        ground (arith, beq_self y) in
      ap (λ l. popped y l s)
        (h y
          ∙ ap (λ k. piled k (values y) (below y)) one_more
          ∙ piled-suc (occurrences y names) (values y) (below y))

  after_pop-IsPiled :
      (s : Preprocessor)
      → IsPiled (y ∷ names) values below s
      → IsPiled names values below (after_pop s)
  unfolding occurrences
  after_pop-IsPiled s h name = elim (Bool-cases (name == y)) [
    | inl same ↦ rw same (
        subst
          (λ z.
            piled (occurrences z names) (values z) (below z)
            ≡ piled (occurrences name names) (values name) (below name))
          (beq_eq name y same) refl)
    | inr other ↦
        let no_other : occurrences name (y ∷ names) ≡ occurrences name names = ground arith in
        rw other (h name ∙ ap (λ k. piled k (values name) (below name)) no_other)
  ]

  after_pop-macros :
      (s : Preprocessor) (name : Text)
      → (1 ≤ occurrences name (y ∷ names)) ⊎ (s.macros name ≡ values name)
      → (1 ≤ occurrences name names) ⊎ ((after_pop s).macros name ≡ values name)
  unfolding occurrences
  after_pop-macros s name h = elim (Bool-cases (name == y)) [
    | inl same ↦ inr (rw same (ap values (sym (beq_eq name y same))))
    | inr other ↦ rw other (still other h)
  ]
    where
      still :
          (name == y) ≡ false
          → (1 ≤ occurrences name (y ∷ names)) ⊎ (s.macros name ≡ values name)
          → (1 ≤ occurrences name names) ⊎ (s.macros name ≡ values name)
      still other (inl more) = inl (ground arith)
      still other (inr e) = inr e

module _ (effect : Text → (Text → Option Text) → Text → Option Text) where
  run-append :
      (front back : List Line) (s : Preprocessor)
      → run_lines effect (front ++ back) s ≡ run_lines effect back (run_lines effect front s)
  run-append [] back s = refl
  run-append (line ∷ front) back s = run-append front back (run_line effect line s)

  push-macros :
      (names : List Text) (s : Preprocessor) (name : Text)
      → (run_lines effect (map push names) s).macros name ≡ s.macros name
  push-macros [] s name = refl
  push-macros (x ∷ names) s name = push-macros names (run_line effect (push x) s) name

  push-stack :
      (names : List Text) (s : Preprocessor) (name : Text)
      → (run_lines effect (map push names) s).stack name
        ≡ piled (occurrences name names) (s.macros name) (s.stack name)
  unfolding occurrences
  push-stack [] s name = refl
  push-stack (x ∷ names) s name =
      push-stack names (run_line effect (push x) s) name
      ∙ pile_push (occurrences name names) x name s.macros s.stack

  include-stack :
      (paths : List Text) (s : Preprocessor) (name : Text)
      → (run_lines effect (map include paths) s).stack name ≡ s.stack name
  include-stack [] s name = refl
  include-stack (path ∷ paths) s name = include-stack paths (run_line effect (include path) s) name

  pops-restore :
      (names : List Text) (values : Text → Option Text) (below : Text → List (Option Text))
      (s : Preprocessor)
      → IsPiled names values below s
      → (name : Text)
      → ((run_lines effect (map pop names) s).stack name ≡ below name)
        × ((1 ≤ occurrences name names) ⊎ (s.macros name ≡ values name)
            → (run_lines effect (map pop names) s).macros name ≡ values name)
  unfolding occurrences
  pops-restore [] values below s h name = (h name, no_more (s.macros name) (values name))
  pops-restore (y ∷ names) values below s h name =
      let (stacked, restored) =
        pops-restore names values below (after_pop y names values below s)
          (after_pop-IsPiled y names values below s h) name in
      let once = ap (run_lines effect (map pop names)) (popped_once y names values below s h) in
      (
        ap (λ t. t.stack name) once ∙ stacked,
        λ more.
            ap (λ t. t.macros name) once
            ∙ restored (after_pop-macros y names values below s name more),
      )

  item-IsPiled :
      (names : List Text) (item : Item) (s : Preprocessor)
      → IsPiled (reverse_onto names []) s.macros s.stack (
          run_line effect
            (include item.source)
            (run_lines effect (map include item.definitions) (run_lines effect (map push names) s)))
  item-IsPiled names item s name =
      include-stack item.definitions (run_lines effect (map push names) s) name
      ∙ push-stack names s name
      ∙ ap (λ k. piled k (s.macros name) (s.stack name)) (sym (occurrences_back names name))

  item_lines-restore :
      (names : List Text) (item : Item) (s : Preprocessor) (name : Text)
      → ((run_lines effect (item_lines names item) s).stack name ≡ s.stack name)
        × (mem name names ≡ true
            → (run_lines effect (item_lines names item) s).macros name ≡ s.macros name)
  unfolding item_lines
  item_lines-restore names item s name =
      let pushed = run_lines effect (map push names) s in
      let defined = run_lines effect (map include item.definitions) pushed in
      let included = run_line effect (include item.source) defined in
      let back = reverse_onto names [] in
      let last : List Line = include item.source ∷ map pop back in
      let whole : run_lines effect (item_lines names item) s
          ≡ run_lines effect (map pop back) included =
        run-append (map push names) (map include item.definitions ++ last) s
        ∙ run-append (map include item.definitions) last pushed in
      let (stacked, restored) =
        pops-restore back s.macros s.stack included (item-IsPiled names item s) name in
      (
        ap (λ t. t.stack name) whole ∙ stacked,
        λ m.
            ap (λ t. t.macros name) whole
            ∙ restored
                (inl (omega (arith, occurrences-mem name names m, occurrences_back names name))),
      )

  chunk_lines_restored :
      (names : List Text) (chunk : List Item) (s : Preprocessor) (name : Text)
      → ((run_lines effect (chunk_lines names chunk) s).stack name ≡ s.stack name)
        × (mem name names ≡ true
            → (run_lines effect (chunk_lines names chunk) s).macros name ≡ s.macros name)
  unfolding chunk_lines
  chunk_lines_restored names [] s name = (refl, λ m. refl)
  chunk_lines_restored names (item ∷ chunk) s name =
      let next = run_lines effect (item_lines names item) s in
      let whole = run-append (item_lines names item) (chunk_lines names chunk) s in
      let (stack_here, macro_here) = item_lines-restore names item s name in
      let (stack_later, macro_later) = chunk_lines_restored names chunk next name in
      (
        ap (λ t. t.stack name) whole ∙ stack_later ∙ stack_here,
        λ m. ap (λ t. t.macros name) whole ∙ macro_later m ∙ macro_here m,
      )

  -- After the lines of a candidate, whatever the included files do to the macros, each macro that is pushed
  -- has the value that it had before, and the values that are pushed of it are as before.
  pub chunk_lines-restore :
      (names : List Text) (chunk : List Item) (s : Preprocessor) (name : Text)
      → mem name names ≡ true
      → ((run_lines effect (chunk_lines names chunk) s).macros name ≡ s.macros name)
        × ((run_lines effect (chunk_lines names chunk) s).stack name ≡ s.stack name)
  chunk_lines-restore names chunk s name m =
      let (stacked, restored) = chunk_lines_restored names chunk s name in (restored m, stacked)
