-- ===== src/Admission/Compare.antt =====
-- `compare_graphs` of tools/clangd_batch_admission.py.
use nvim_dot_files.Prelude.{
  ℕ, Bool, true, false, not, ◌&&◌, List, [], ◌∷◌, ◌++◌, Option, none, some, map, nat_eq,
  if◌then◌else◌, Eq-number, Eq-list, Eq-option, ◌==◌,
}
use nvim_dot_files.Prelude.Result.{Result, ok, err, ◌>>=◌}
use nvim_dot_files.Prelude.Sorting.{sorted_by}
use nvim_dot_files.Prelude.Sets.{mem, adjoin, subset, same_set, difference, keep_if}
use nvim_dot_files.Prelude.Dicts.{Dict, at, keys, values, revise, option_or}
use nvim_dot_files.IndexGraph.Reader.{Text, Location}
use nvim_dot_files.IndexGraph.Shard.{Symbol, Ref}
use nvim_dot_files.IndexGraph.Key.{Key, text, location_key}
use nvim_dot_files.IndexGraph.Key.Compare.{Eq-key, key_order}
use nvim_dot_files.IndexGraph.Canonical.{Graph}
use nvim_dot_files.Admission.Symbols.{
  Field, template_specialization_args, language, value, identity, completion, is_full, preferred,
  locations, headers_of, same_headers, flags_of,
}
use nvim_dot_files.Admission.Collect.{Fault, Source, Collected}
use nvim_dot_files.Admission.Providers.{
  Urls, Context, contexts_of, provider_evidence, valid_providers, has_kind,
}
use nvim_dot_files.Admission.Templates.{TemplateRequest, sorted_texts}

-- `dict(ref, original_graph_indices=…)`
pub record AddedRef : Type 0 where
  pub ref : Ref
  pub original_graph_indices : List ℕ

-- What a callback does: it returns `True`, returns something else, or raises an exception with a text.
pub data Answer : Type 0 where
  proven unproven : Answer
  raised : Text → Answer

-- The arguments of a call of `resolve_original`.
pub record Question : Type 0 where
  pub uri : Text
  pub line : ℕ
  pub column : ℕ
  pub symbol_id : Text
  pub indices : List ℕ

-- `resolve_original` and `resolve_template_arguments`, or `None`
pub record Resolvers : Type 0 where
  pub original : Option (Question → Answer)
  pub template_arguments : Option (TemplateRequest → Answer)

-- The reasons of a rejection, with their details.
pub data Reason : Type 0 where
  missing_original_tu_graphs relations_changed : Reason
  file_coverage_changed symbol_identities_changed : List Text → List Text → Reason
  source_dependencies_changed symbol_flags_changed symbol_include_headers_changed : Text → Reason
  symbol_definitions_changed symbol_declarations_changed : Text → Reason
  symbol_identity_fields_changed symbol_completion_changed : Text → Field → Reason
  references_removed_or_retargeted : List Ref → Reason
  template_arguments_require_compiler_proof : List TemplateRequest → Reason
  template_argument_proof_failed : Text → Reason
  template_argument_identity_unproven : TemplateRequest → Reason
  added_references_require_original_proof : Reason
  original_reference_proof_failed : Text → Reason
  original_reference_identity_unproven : AddedRef → Reason
  invalid_graph : Fault → Reason

-- The result: both kinds hold `added_refs`, and an acceptance the template arguments proven.
pub data Verdict : Type 0 where
  accepted : List AddedRef → List TemplateRequest → Verdict
  rejected : Reason → List AddedRef → Verdict

-- A step of the body that goes on with a value, or returns a rejection.
abbrev pub Check : Type 0 → Type 0
Check A = Result Reason A

abbrev pub caught : {A : Type 0} → Result Fault A → Check A
caught (ok a) = ok a
caught (err fault) = err (invalid_graph fault)

abbrev pub ensure : Bool → Reason → Check (Unit {0})
ensure true reason = ok tt
ensure false reason = err reason

unfoldable pub same_source : Source → Source → Bool
unfolding same_set
same_source a b = a.digest == b.digest && (nat_eq a.flags b.flags && same_set a.includes b.includes)

unfoldable pub same_source_at : Dict Text Source → Dict Text Source → Text → Bool
unfolding at same_source
same_source_at old new uri = elim (at uri old) [
  | none ↦ false
  | some a ↦ elim (at uri new) [ none ↦ false | some b ↦ same_source a b ]
]

-- `for uri in sorted(sources)`
unfoldable pub check_sources : Dict Text Source → Dict Text Source → List Text → Check (Unit {0})
unfolding same_source_at
check_sources old new [] = ok tt
check_sources old new (uri ∷ uris) =
    let rest = check_sources old new uris in
    if same_source_at old new uri then rest else err (source_dependencies_changed uri)

-- `declaration_refs` by the mask 3, and `definition_refs` by the mask 2
unfoldable pub ref_sites : ℕ → List Ref → Dict Text (List Key) → Dict Text (List Key)
unfolding revise adjoin
ref_sites mask [] found = found
ref_sites mask (r ∷ refs) found = ref_sites mask refs (
    if has_kind mask r
    then revise r.symbol_id [] (adjoin (location_key r.location)) found
    else found)

-- `{s[field] for s in old} == {s[field] for s in new}`
unfoldable pub same_field : Field → List Symbol → List Symbol → Bool
unfolding same_set value
same_field field old new = same_set (map (value field) old) (map (value field) new)

abbrev is_template : Field → Bool
is_template template_specialization_args = true
is_template other = false

-- The loop over `_IDENTITY`: whether the template arguments changed.
unfoldable pub check_identity : Text → List Symbol → List Symbol → List Field → Check Bool
unfolding same_field
check_identity sid old new [] = ok false
check_identity sid old new (field ∷ fields) =
    let rest = check_identity sid old new fields in
    if same_field field old new
    then rest
    else if is_template field
    then (rest >>= λ _. ok true)
    else err (symbol_identity_fields_changed sid field)

-- `{s[field] for s in symbols if s[field]}`
unfoldable pub full_values : Field → List Symbol → List Key
unfolding keep_if value
full_values field symbols = keep_if (λ k. not (k == text [])) (map (value field) symbols)

-- The loop over `_COMPLETION`.
unfoldable pub check_completion : Text → List Symbol → List Symbol → List Field → Check (Unit {0})
unfolding same_set full_values
check_completion sid old new [] = ok tt
check_completion sid old new (field ∷ fields) =
    let rest = check_completion sid old new fields in
    if same_set (full_values field old) (full_values field new)
    then rest
    else err (symbol_completion_changed sid field)

abbrev definition_of : Symbol → Location
definition_of s = s.definition

abbrev declaration_of : Symbol → Location
declaration_of s = s.canonical_declaration

-- `old_defs <= new_defs and new_defs <= old_defs | definition_refs.get(sid, set())`
unfoldable pub same_definitions : List Symbol → List Symbol → List Key → Bool
unfolding subset locations
same_definitions original candidate refs =
    let old = locations definition_of original in
    let new = locations definition_of candidate in subset old new && subset new (old ++ refs)

-- A declaration stays, and a new one is at a declaring reference.
unfoldable pub same_declarations : List Symbol → List Symbol → List Key → Bool
unfolding subset locations
same_declarations original candidate refs =
    let old = locations declaration_of original in
    let new = locations declaration_of candidate in
    not (is_full old && not (is_full new)) && subset new (old ++ refs)

-- What the checks of one symbol read, besides its records.
pub record Evidences : Type 0 where
  pub contexts : List Context
  pub declaration_refs : Dict Text (List Key)
  pub definition_refs : Dict Text (List Key)

-- The body of the loop over the symbols: whether the template arguments changed.
unfoldable pub check_symbol : Urls → Evidences → Text → List Symbol → List Symbol → Check Bool
unfolding check_identity check_completion same_field preferred flags_of valid_providers
    same_definitions same_declarations at
check_symbol urls v sid original candidate = do
  changed ← check_identity sid original candidate identity
  _ ←
      ensure (same_field language (preferred original) candidate)
        (symbol_identity_fields_changed sid language)
  _ ← check_completion sid original candidate completion
  _ ← ensure (nat_eq (flags_of original) (flags_of candidate)) (symbol_flags_changed sid)
  valid ← caught (valid_providers urls v.contexts sid original candidate)
  _ ← ensure valid (symbol_include_headers_changed sid)
  _ ←
      ensure (same_definitions original candidate (option_or [] (at sid v.definition_refs)))
        (symbol_definitions_changed sid)
  _ ←
      ensure (same_declarations original candidate (option_or [] (at sid v.declaration_refs)))
        (symbol_declarations_changed sid)
  ok changed

abbrev pub Symbols : Type 0
Symbols = Dict Text (Dict Key Symbol)

-- `list(symbols[sid].values())`
unfoldable pub records_at : Text → Symbols → List Symbol
unfolding at
records_at sid symbols = values (option_or [] (at sid symbols))

-- `for sid in sorted(symbols)`: the symbols of which the template arguments changed.
unfoldable pub check_symbols : Urls → Evidences → Symbols → Symbols → List Text → Check (List Text)
unfolding check_symbol records_at
check_symbols urls v old new [] = ok []
check_symbols urls v old new (sid ∷ sids) = do
  changed ← check_symbol urls v sid (records_at sid old) (records_at sid new)
  rest ← check_symbols urls v old new sids
  ok (if changed then sid ∷ rest else rest)

-- The symbols of which the header suggestions changed.
unfoldable pub changed_headers : Symbols → Symbols → List Text
unfolding keep_if same_headers headers_of records_at
changed_headers old new =
    keep_if
      (λ sid.
        not (same_headers (headers_of (records_at sid old)) (headers_of (records_at sid new))))
      (keys new)

unfoldable pub evidences : List Graph → Collected → Collected → Evidences
unfolding ref_sites provider_evidence changed_headers
evidences originals before after = record {
  contexts =
      contexts_of originals
        (provider_evidence (changed_headers before.symbols after.symbols) originals);
  declaration_refs = ref_sites 3 (values before.refs) [];
  definition_refs = ref_sites 2 (values before.refs) [];
}

-- `[refs[k] for k in sorted(wanted)]`
unfoldable pub refs_at : List Key → Dict Key Ref → List Ref
unfolding mem keep_if
refs_at wanted refs = values (sorted_by key_order (λ p. p.0) (keep_if (λ p. mem p.0 wanted) refs))

-- The checks on two unions: the symbols of which the template arguments changed.
unfoldable pub check_unions : Urls → List Graph → Collected → Collected → Check (List Text)
unfolding same_set difference check_sources check_symbols evidences refs_at
check_unions urls originals before after = do
  let old_uris = keys before.sources
  let uris = keys after.sources
  let old_ids = keys before.symbols
  let ids = keys after.symbols
  let removed = difference (keys before.refs) (keys after.refs)
  _ ← ensure (same_set old_uris uris) (
      file_coverage_changed (sorted_texts (difference old_uris uris))
        (sorted_texts (difference uris old_uris)))
  _ ← check_sources before.sources after.sources (sorted_texts uris)
  _ ← ensure (same_set old_ids ids) (
      symbol_identities_changed (sorted_texts (difference old_ids ids))
        (sorted_texts (difference ids old_ids)))
  changed ←
      check_symbols urls (evidences originals before after) before.symbols after.symbols
        (sorted_texts ids)
  _ ← ensure (same_set before.relations after.relations) relations_changed
  _ ←
      ensure (not (is_full removed))
        (references_removed_or_retargeted (refs_at removed before.refs))
  ok changed
