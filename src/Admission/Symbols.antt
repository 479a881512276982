-- ===== src/Admission/Symbols.antt =====
-- The parts of a symbol's records that tools/clangd_batch_admission.py compares: `_locations`,
-- `_headers`, `_flags` and the fields.
use nvim_dot_files.Prelude.{
  ℕ, ◌-◌, Bool, true, false, ◌&&◌, List, [], ◌∷◌, ◌++◌, map, bit_and, bit_or, if◌then◌else◌,
  Eq-number, Eq-list, Eq-option, ◌==◌,
}
use nvim_dot_files.Prelude.Sets.{mem, keep_if, every, subset}
use nvim_dot_files.Prelude.Dicts.{Dict, keys, at, revise}
use nvim_dot_files.IndexGraph.Reader.{Text, Location}
use nvim_dot_files.IndexGraph.Shard.{Symbol, IncludeHeader}
use nvim_dot_files.IndexGraph.Key.{Key, number, text, location_key}

-- Python's truth of a list or a text.
abbrev pub is_full {ℓ} : {A : Type ℓ} → List A → Bool
is_full [] = false
is_full (x ∷ xs) = true

-- `xs or ys`
abbrev pub or_list {ℓ} : {A : Type ℓ} → List A → List A → List A
or_list [] ys = ys
or_list (x ∷ xs) ys = x ∷ xs

-- The fields of the identity, of completion, and the language.
pub data Field : Type 0 where
  name scope kind template_specialization_args language : Field
  type signature return_type completion_snippet_suffix : Field

-- `symbol[field]`
unfoldable pub value : Field → Symbol → Key
value name s = text s.name
value scope s = text s.scope
value kind s = number s.kind
value template_specialization_args s = text s.template_specialization_args
value language s = number s.language
value type s = text s.type
value signature s = text s.signature
value return_type s = text s.return_type
value completion_snippet_suffix s = text s.completion_snippet_suffix

abbrev pub identity : List Field
identity = name ∷ scope ∷ kind ∷ template_specialization_args ∷ []

abbrev pub completion : List Field
completion = type ∷ signature ∷ return_type ∷ completion_snippet_suffix ∷ []

unfoldable pub has_definition : Symbol → Bool
has_definition s = is_full s.definition.uri

-- `_locations(symbols, "definition")` and `_locations(symbols, "canonical_declaration")`
unfoldable pub locations : (Symbol → Location) → List Symbol → List Key
unfolding keep_if
locations field symbols =
    map (λ l. location_key l) (keep_if (λ l. is_full l.uri) (map field symbols))

-- `[symbol for symbol in symbols if symbol["definition"]["uri"]] or symbols`
unfoldable pub preferred : List Symbol → List Symbol
unfolding keep_if has_definition
preferred symbols = or_list (keep_if has_definition symbols) symbols

abbrev header_names : List IncludeHeader → List Text
header_names = map (λ h. h.header)

unfoldable pub allowed_headers : List Symbol → List Text
allowed_headers [] = []
allowed_headers (s ∷ symbols) = header_names s.include_headers ++ allowed_headers symbols

unfoldable pub add_headers : List Text → List IncludeHeader → Dict Text ℕ → Dict Text ℕ
unfolding mem revise
add_headers allowed [] headers = headers
add_headers allowed (h ∷ hs) headers = add_headers allowed hs (
    if mem h.header allowed
    then revise h.header 0 (λ n. bit_or n h.supported_directives) headers
    else headers)

unfoldable pub headers_loop : List Text → List Symbol → Dict Text ℕ → Dict Text ℕ
unfolding add_headers
headers_loop allowed [] headers = headers
headers_loop allowed (s ∷ symbols) headers =
    headers_loop allowed symbols (add_headers allowed s.include_headers headers)

unfoldable pub headers_of : List Symbol → Dict Text ℕ
unfolding headers_loop allowed_headers preferred
headers_of symbols = headers_loop (allowed_headers (preferred symbols)) symbols []

-- `==` of two dictionaries: the same keys, with the same values.
unfoldable pub same_headers : Dict Text ℕ → Dict Text ℕ → Bool
unfolding every subset at
same_headers old new =
    every (λ name. at name old == at name new) (keys old) && subset (keys new) (keys old)

abbrev pub has_doc_comment : ℕ
has_doc_comment = 16

-- `symbol["flags"] & ~_HAS_DOC_COMMENT`, of which the bit is 4
unfoldable pub own_flags : Symbol → ℕ
own_flags s = s.flags - bit_and s.flags has_doc_comment

unfoldable pub flags_loop : ℕ → List Symbol → ℕ
unfolding own_flags
flags_loop result [] = result
flags_loop result (s ∷ symbols) = flags_loop (bit_or result (own_flags s)) symbols

unfoldable pub flags_of : List Symbol → ℕ
unfolding flags_loop
flags_of symbols = flags_loop 0 symbols
