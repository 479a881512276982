-- ===== src/IndexGraph/Shard.antt =====
-- `_symbol` and `decode_shard` of tools/clangd_index_graph.py: the records of one shard.
pub mod RoundTrip
pub mod Loops
use nvim_dot_files.Prelude.{
  ℕ, zero, suc, ◌+◌, ◌/◌, ◌%◌, ◌≡◌, Bool, true, false, not, ◌||◌, List, [], ◌∷◌, ◌++◌, Option, none,
  some, bit_and, length, nat_eq, if◌then◌else◌, ◌==◌, Eq-number, Eq-list,
}
use nvim_dot_files.Prelude.Result.{Result, ok, err}
use nvim_dot_files.IndexGraph.Reader.{
  Bytes, Text, Fault, Reader, pure, raise, ◌>>=◌, take_bytes, hex, byte, symbol_id, var, remaining,
  count, string, Location, location, repeat, while_remaining, duplicate_node, trailing_command,
  missing_chunk,
}
use nvim_dot_files.IndexGraph.Riff.{
  Chunks, find, read_chunks, check, stri_tag, symb_tag, refs_tag, rela_tag, srcs_tag, cmdl_tag,
  version,
}
use nvim_dot_files.IndexGraph.Strings.{Zlib, read_strings}

pub record IncludeHeader : Type 0 where
  pub header : Text
  pub references : ℕ
  pub supported_directives : ℕ

pub record Symbol : Type 0 where
  pub id : Text
  pub kind : ℕ
  pub language : ℕ
  pub name : Text
  pub scope : Text
  pub template_specialization_args : Text
  pub definition : Location
  pub canonical_declaration : Location
  pub references : ℕ
  pub flags : ℕ
  pub signature : Text
  pub completion_snippet_suffix : Text
  pub documentation : Text
  pub return_type : Text
  pub type : Text
  pub include_headers : List IncludeHeader

pub record Ref : Type 0 where
  pub symbol_id : Text
  pub kind : ℕ
  pub location : Location
  pub container : Text

pub record Relation : Type 0 where
  pub subject : Text
  pub predicate : ℕ
  pub object : Text

pub record SourceNode : Type 0 where
  pub flags : ℕ
  pub digest : Text
  pub direct_includes : List Text

pub record Command : Type 0 where
  pub directory : Text
  pub arguments : List Text

-- The dictionary of source nodes, its keys in the order of insertion.
abbrev pub Sources : Type 0
Sources = List (Text × SourceNode)

pub record Shard : Type 0 where
  pub version : ℕ
  pub symbols : List Symbol
  pub refs : List Ref
  pub relations : List Relation
  pub sources : Sources
  pub command : Option Command

unfoldable pub include_header : List Text → Reader IncludeHeader
unfolding string var
include_header strings = do
  header ← string strings
  packed ← var
  pure
      (record { header = header; references = packed / 4; supported_directives = bit_and packed 3 })

unfoldable pub symbol : List Text → Reader Symbol
unfolding symbol_id byte string location var count repeat include_header
symbol strings = do
  id ← symbol_id
  kind ← byte
  language ← byte
  name ← string strings
  scope ← string strings
  template_specialization_args ← string strings
  definition ← location strings
  canonical_declaration ← location strings
  references ← var
  flags ← byte
  signature ← string strings
  completion_snippet_suffix ← string strings
  documentation ← string strings
  return_type ← string strings
  type ← string strings
  headers ← count
  include_headers ← repeat headers (include_header strings)
  pure (record {
    id = id;
    kind = kind;
    language = language;
    name = name;
    scope = scope;
    template_specialization_args = template_specialization_args;
    definition = definition;
    canonical_declaration = canonical_declaration;
    references = references;
    flags = flags;
    signature = signature;
    completion_snippet_suffix = completion_snippet_suffix;
    documentation = documentation;
    return_type = return_type;
    type = type;
    include_headers = include_headers;
  })

unfoldable pub ref : List Text → Text → Reader Ref
unfolding byte location symbol_id
ref strings id = do
  kind ← byte
  location ← location strings
  container ← symbol_id
  pure (record { symbol_id = id; kind = kind; location = location; container = container })

unfoldable pub relation : Reader Relation
unfolding symbol_id byte
relation = do
  subject ← symbol_id
  predicate ← byte
  object ← symbol_id
  pure (record { subject = subject; predicate = predicate; object = object })

-- The bodies of the four loops; each appends what it read.
unfoldable pub symbols_step : List Text → List Symbol → Reader (List Symbol)
unfolding symbol
symbols_step strings symbols = do s ← symbol strings; pure (symbols ++ s ∷ [])

unfoldable pub refs_step : List Text → List Ref → Reader (List Ref)
unfolding symbol_id count repeat ref
refs_step strings refs = do
  id ← symbol_id
  n ← count
  more ← repeat n (ref strings id)
  pure (refs ++ more)

unfoldable pub relations_step : List Relation → Reader (List Relation)
unfolding relation
relations_step relations = do r ← relation; pure (relations ++ r ∷ [])

unfoldable pub has_uri : Text → Sources → Bool
has_uri uri [] = false
has_uri uri ((u, node) ∷ sources) = u == uri || has_uri uri sources

unfoldable pub sources_step : List Text → Sources → Reader Sources
unfolding byte string take_bytes hex count repeat has_uri
sources_step strings sources = do
  flags ← byte
  uri ← string strings
  digest ← take_bytes 8
  n ← count
  includes ← repeat n (string strings)
  _ ← check (has_uri uri sources) duplicate_node
  pure (
      sources
      ++ (uri, record { flags = flags; digest = hex digest; direct_includes = includes }) ∷ [])

unfoldable pub end_command : Text → List Text → Reader Command
unfolding remaining
end_command directory arguments = do
  left ← remaining
  _ ← check (not (nat_eq left 0)) trailing_command
  pure (record { directory = directory; arguments = arguments })

unfoldable pub command_arguments : List Text → Text → Reader Command
unfolding string count repeat end_command
command_arguments strings directory = do
  n ← count
  arguments ← repeat n (string strings)
  end_command directory arguments

unfoldable pub command : List Text → Reader Command
unfolding string command_arguments
command strings = do directory ← string strings; command_arguments strings directory
