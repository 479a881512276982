-- ===== src/IndexGraph/Key.antt =====
-- `_record_key` and its kin in tools/clangd_index_graph.py: the structural keys by which records are
-- told apart and sorted. Python compares the tuples item by item, and a shorter one that is a prefix
-- comes first.
pub mod Compare
pub mod Injective
use nvim_dot_files.Prelude.{ℕ, ◌≡◌, Bool, true, false, List, [], ◌∷◌, length, map}
use nvim_dot_files.Prelude.Texts.{String, codes}
use nvim_dot_files.IndexGraph.Reader.{Text, Location}
use nvim_dot_files.IndexGraph.Shard.{IncludeHeader, Symbol, Ref, Relation}

mutual
  pub data Key : Type 0 where
    number : ℕ → Key
    text : Text → Key
    tuple : Keys → Key

  pub data Keys : Type 0 where
    stop : Keys
    item : Key → Keys → Keys

abbrev pub keys_of : List Key → Keys
keys_of [] = stop
keys_of (k ∷ ks) = item k (keys_of ks)

-- A tuple, from the list of its items.
abbrev pub tuple_of : List Key → Key
tuple_of items = tuple (keys_of items)

-- A tuple of field names, which begins a record's key.
abbrev fields : List String → Key
fields names = tuple_of (map (λ name. text (codes name)) names)

unfoldable pub location_key : Location → Key
location_key l = tuple_of (
    fields ("end" ∷ "start" ∷ "uri" ∷ [])
    ∷ number 2
    ∷ number l.end.0
    ∷ number l.end.1
    ∷ number 2
    ∷ number l.start.0
    ∷ number l.start.1
    ∷ text l.uri
    ∷ [])

unfoldable pub ref_key : Ref → Key
unfolding location_key
ref_key r = tuple_of (
    fields ("container" ∷ "kind" ∷ "location" ∷ "symbol_id" ∷ [])
    ∷ text r.container
    ∷ number r.kind
    ∷ location_key r.location
    ∷ text r.symbol_id
    ∷ [])

-- The general case, whose fields are sorted by name.
unfoldable pub header_key : IncludeHeader → Key
header_key h = tuple_of (
    fields ("header" ∷ "references" ∷ "supported_directives" ∷ [])
    ∷ text h.header
    ∷ number h.references
    ∷ number h.supported_directives
    ∷ [])

unfoldable pub relation_key : Relation → Key
relation_key r = tuple_of (
    fields ("object" ∷ "predicate" ∷ "subject" ∷ [])
    ∷ text r.object
    ∷ number r.predicate
    ∷ text r.subject
    ∷ [])

unfoldable pub symbol_key : Symbol → Key
unfolding location_key header_key
symbol_key s = tuple_of (
    fields (
      "canonical_declaration" ∷ "completion_snippet_suffix" ∷ "definition" ∷ "documentation"
      ∷ "flags" ∷ "id" ∷ "include_headers" ∷ "kind" ∷ "language" ∷ "name" ∷ "references"
      ∷ "return_type" ∷ "scope" ∷ "signature" ∷ "template_specialization_args" ∷ "type" ∷ [])
    ∷ location_key s.canonical_declaration
    ∷ text s.completion_snippet_suffix
    ∷ location_key s.definition
    ∷ text s.documentation
    ∷ number s.flags
    ∷ text s.id
    ∷ tuple_of (map header_key s.include_headers)
    ∷ number s.kind
    ∷ number s.language
    ∷ text s.name
    ∷ number s.references
    ∷ text s.return_type
    ∷ text s.scope
    ∷ text s.signature
    ∷ text s.template_specialization_args
    ∷ text s.type
    ∷ [])
