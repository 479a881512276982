-- ===== src/Admission/Verdict/Same.antt =====
-- `compare_graphs` on a graph beside itself.
use nvim_dot_files.Prelude.{
  ℕ, ◌≡◌, refl, Bool, true, false, ◌&&◌, List, [], ◌∷◌, ◌++◌, Option, none, some, map, Bool-cases,
  Option-cases, inl, inr, arith, Eq, Eq-number, Eq-list, Eq-option, ◌==◌, beq_self, nat_eq_iff, All,
}
use nvim_dot_files.Prelude.Result.{ok}
use nvim_dot_files.Prelude.Sorting.{sorted_by}
use nvim_dot_files.Prelude.Sets.{
  mem, difference, subset, keep_if, every_of, same_set_self, same_set_of, subset_of,
  difference-subset, mem-append, mem-sorted_by,
}
use nvim_dot_files.Prelude.Dicts.{Dict, at, keys, option_or, mem-keys}
use nvim_dot_files.IndexGraph.Reader.{Text}
use nvim_dot_files.IndexGraph.Shard.{Ref, Symbol}
use nvim_dot_files.IndexGraph.Key.{Key, number}
use nvim_dot_files.IndexGraph.Key.Compare.{Eq-key, text_order}
use nvim_dot_files.IndexGraph.Canonical.{Graph}
use nvim_dot_files.Admission.Symbols.{
  Field, language, value, identity, completion, is_full, or_list, preferred, has_definition,
  locations, headers_of, same_headers, flags_of,
}
use nvim_dot_files.Admission.Collect.{Source, Collected, collect}
use nvim_dot_files.Admission.Providers.{Urls, valid_providers}
use nvim_dot_files.Admission.Templates.{TemplateRequest, sorted_texts}
use nvim_dot_files.Admission.Compare.{
  Question, Answer, Resolvers, accepted, same_source, same_source_at, check_sources, same_field,
  check_identity, full_values, check_completion, same_definitions, same_declarations, Evidences,
  check_symbol, Symbols, records_at, check_symbols, evidences, refs_at, check_unions,
}
use nvim_dot_files.Admission.Verdict.{
  add_refs_loop, prove_all_refs, prove_all_templates, prove_both, verdict_of, conclude,
  check_graphs, compare_graphs,
}

-- All records of a symbol have one language.
abbrev pub HasOneLanguage : List Symbol → Type 0
HasOneLanguage records = (l : ℕ) × All (λ (s : Symbol). s.language ≡ l) records

same_source_self : (s : Source) → same_source s s ≡ true
unfolding same_source
same_source_self s =
    rw (beq_self s.digest, (nat_eq_iff s.flags s.flags).1 refl, same_set_self s.includes) refl

same_source_at_self :
    (sources : Dict Text Source) (uri : Text) (s : Source)
    → at uri sources ≡ some s
    → same_source_at sources sources uri ≡ true
unfolding same_source_at
same_source_at_self sources uri s there = ground (arith, same_source_self s)

check_sources_self :
    (sources : Dict Text Source) (uris : List Text)
    → ((uri : Text) → mem uri uris ≡ true → mem uri (keys sources) ≡ true)
    → check_sources sources sources uris ≡ ok tt
unfolding check_sources mem
check_sources_self sources [] h = refl
check_sources_self sources (uri ∷ uris) h =
    let here : mem uri (keys sources) ≡ true = h uri (ground (arith, beq_self uri)) in
    let rest = check_sources_self sources uris (λ u m. h u (ground arith)) in
    elim (Option-cases (at uri sources)) [
      | inl missing ↦ cc (rw missing at (rw (mem-keys uri sources) at here))
      | inr (s, there) ↦ rw (same_source_at_self sources uri s there) rest
    ]

check_identity_self :
    (sid : Text) (symbols : List Symbol) (fields : List Field)
    → check_identity sid symbols symbols fields ≡ ok false
unfolding check_identity same_field
check_identity_self sid symbols [] = refl
check_identity_self sid symbols (field ∷ fields) =
    rw (same_set_self (map (value field) symbols)) (check_identity_self sid symbols fields)

check_completion_self :
    (sid : Text) (symbols : List Symbol) (fields : List Field)
    → check_completion sid symbols symbols fields ≡ ok tt
unfolding check_completion
check_completion_self sid symbols [] = refl
check_completion_self sid symbols (field ∷ fields) =
    rw (same_set_self (full_values field symbols)) (check_completion_self sid symbols fields)

same_headers_self : (headers : Dict Text ℕ) → same_headers headers headers ≡ true
unfolding same_headers
same_headers_self headers =
    rw
      (
        every_of (λ name. at name headers == at name headers) (keys headers)
            (λ name m. beq_self (at name headers)),
        subset_of (keys headers) (keys headers) (λ x m. m),
      )
      refl

subset_more : (s t : List Key) → subset s (s ++ t) ≡ true
subset_more s t = subset_of s (s ++ t) (λ x m. ground (arith, mem-append x s t))

same_definitions_self :
    (symbols : List Symbol) (refs : List Key) → same_definitions symbols symbols refs ≡ true
unfolding same_definitions
same_definitions_self symbols refs =
    let old = locations (λ s. s.definition) symbols in
    rw (subset_of old old (λ x m. m), subset_more old refs) refl

same_declarations_self :
    (symbols : List Symbol) (refs : List Key) → same_declarations symbols symbols refs ≡ true
unfolding same_declarations
same_declarations_self symbols refs =
    let old = locations (λ s. s.canonical_declaration) symbols in
    ground (arith, subset_more old refs)

-- A list of equal values, as a set, is that of any nonempty part.
language-mem :
    (l : ℕ) (symbols : List Symbol) (k : Key)
    → All (λ (s : Symbol). s.language ≡ l) symbols
    → mem k (map (value language) symbols) ≡ (is_full symbols && (k == number l))
unfolding mem value
language-mem l [] k h = refl
language-mem l (s ∷ symbols) k (here, rest) =
    rw here (ground (arith, language-mem l symbols k rest))

All-kept :
    (P : Symbol → Type 0) (test : Symbol → Bool) (symbols : List Symbol)
    → All P symbols
    → All P (keep_if test symbols)
unfolding keep_if
All-kept P test [] h = tt
All-kept P test (s ∷ symbols) (here, rest) = elim (Bool-cases (test s)) [
  | inl kept ↦ rw kept (here, All-kept P test symbols rest)
  | inr gone ↦ rw gone (All-kept P test symbols rest)
]

or_list-All :
    (P : Symbol → Type 0) (xs ys : List Symbol) → All P xs → All P ys → All P (or_list xs ys)
or_list-All P [] ys h k = k
or_list-All P (x ∷ xs) ys h k = h

or_list-is_full :
    (test : Symbol → Bool) (ys : List Symbol) → is_full (or_list (keep_if test ys) ys) ≡ is_full ys
unfolding keep_if
or_list-is_full test [] = refl
or_list-is_full test (y ∷ ys) = full (keep_if test (y ∷ ys))
  where
    full : (xs : List Symbol) → is_full (or_list xs (y ∷ ys)) ≡ true
    full [] = refl
    full (x ∷ xs) = refl

language_self :
    (symbols : List Symbol)
    → HasOneLanguage symbols
    → same_field language (preferred symbols) symbols ≡ true
unfolding same_field preferred
language_self symbols (l, h) =
    let part = or_list (keep_if has_definition symbols) symbols in
    let all : All (λ (s : Symbol). s.language ≡ l) part =
      or_list-All _ (keep_if has_definition symbols) symbols (All-kept _ has_definition symbols h)
        h in
    same_set_of (map (value language) part) (map (value language) symbols) λ k.
      rw
        (
          language-mem l part k all,
          language-mem l symbols k h,
          or_list-is_full has_definition symbols,
        )
        refl

check_symbol_self :
    (urls : Urls) (v : Evidences) (sid : Text) (symbols : List Symbol)
    → HasOneLanguage symbols
    → check_symbol urls v sid symbols symbols ≡ ok false
unfolding check_symbol valid_providers
check_symbol_self urls v sid symbols h =
    rw
      (
        check_identity_self sid symbols identity,
        language_self symbols h,
        check_completion_self sid symbols completion,
        (nat_eq_iff (flags_of symbols) (flags_of symbols)).1 refl,
        same_headers_self (headers_of symbols),
        same_definitions_self symbols (option_or [] (at sid v.definition_refs)),
        same_declarations_self symbols (option_or [] (at sid v.declaration_refs)),
      )
      refl

check_symbols_self :
    (urls : Urls) (v : Evidences) (symbols : Symbols) (sids : List Text)
    → ((sid : Text) → HasOneLanguage (records_at sid symbols))
    → check_symbols urls v symbols symbols sids ≡ ok []
unfolding check_symbols
check_symbols_self urls v symbols [] h = refl
check_symbols_self urls v symbols (sid ∷ sids) h =
    rw
      (
        check_symbol_self urls v sid (records_at sid symbols) (h sid),
        check_symbols_self urls v symbols sids h,
      )
      refl

difference_self {ℓ} : {A : Type ℓ} ⦃e : Eq A⦄ (s : List A) → difference s s ≡ []
difference_self s = difference-subset s s (subset_of s s (λ x m. m))

check_unions_self :
    (urls : Urls) (originals : List Graph) (c : Collected)
    → ((sid : Text) → HasOneLanguage (records_at sid c.symbols))
    → check_unions urls originals c c ≡ ok []
unfolding check_unions
check_unions_self urls originals c h =
    rw
      (
        same_set_self (keys c.sources),
        check_sources_self c.sources (sorted_texts (keys c.sources))
            (λ u m. rw (mem-sorted_by text_order (λ t. t) u (keys c.sources)) at m),
        same_set_self (keys c.symbols),
        check_symbols_self urls (evidences originals c c) c.symbols (sorted_texts (keys c.symbols))
            h,
        same_set_self c.relations,
        difference_self (keys c.refs),
      )
      refl

keep_none : (refs : Dict Key Ref) → keep_if (λ (p : Key × Ref). mem p.0 []) refs ≡ []
unfolding keep_if mem
keep_none [] = refl
keep_none (p ∷ refs) = keep_none refs

refs_at-difference : (refs : Dict Key Ref) → refs_at (difference (keys refs) (keys refs)) refs ≡ []
unfolding refs_at sorted_by
refs_at-difference refs = rw (difference_self (keys refs), keep_none refs) refl

prove_all_refs_none : (o : Option (Question → Answer)) → prove_all_refs o [] ≡ ok tt
unfolding prove_all_refs
prove_all_refs_none none = refl
prove_all_refs_none (some resolve) = refl

prove_all_templates_none :
    (o : Option (TemplateRequest → Answer)) → prove_all_templates o [] ≡ ok tt
unfolding prove_all_templates
prove_all_templates_none none = refl
prove_all_templates_none (some resolve) = refl

conclude_self :
    (resolvers : Resolvers) (originals : List Graph) (c : Collected)
    → conclude resolvers originals c c [] ≡ accepted [] []
unfolding conclude prove_both verdict_of add_refs_loop
conclude_self resolvers originals c =
    rw
      (
        refs_at-difference c.refs,
        conclude,
        prove_all_templates_none resolvers.template_arguments,
        prove_all_refs_none resolvers.original,
      )
      refl

check_graphs_self :
    (urls : Urls) (graph : Graph) (ignored : List Text) (c : Collected)
    → collect ignored (graph ∷ []) ≡ ok c
    → ((sid : Text) → HasOneLanguage (records_at sid c.symbols))
    → check_graphs urls (graph ∷ []) graph ignored ≡ ok (c, c, [])
unfolding check_graphs
check_graphs_self urls graph ignored c h one =
    rw (h, check_unions_self urls (graph ∷ []) c one) refl

-- A graph beside itself is accepted, with nothing added and whatever the callbacks are, if it can be
-- collected and the records of each symbol have one language.
pub compare_graphs_self :
    (urls : Urls) (resolvers : Resolvers) (graph : Graph) (ignored : List Text) (c : Collected)
    → collect ignored (graph ∷ []) ≡ ok c
    → ((sid : Text) → HasOneLanguage (records_at sid c.symbols))
    → compare_graphs urls resolvers (graph ∷ []) graph ignored ≡ accepted [] []
unfolding compare_graphs
compare_graphs_self urls resolvers graph ignored c h one =
    rw (check_graphs_self urls graph ignored c h one, compare_graphs)
      (conclude_self resolvers (graph ∷ []) c)
