-- ===== src/Admission/Providers.antt =====
-- `_provider_evidence` and `_valid_providers` of tools/clangd_batch_admission.py: whether a changed
-- header suggestion leads to the declaration. `urlparse`, `unquote` and `PurePosixPath` of the standard
-- library are one argument: the scheme of a header, and the suffix of its path in lower case, or
-- nothing where they raise `ValueError`.
pub mod Exposes
use nvim_dot_files.Prelude.{
  ℕ, zero, suc, ◌+◌, Bool, true, false, not, ◌||◌, ◌&&◌, List, [], ◌∷◌, ◌++◌, Option, none, some,
  map, bit_and, nat_eq, if◌then◌else◌, Eq-number, Eq-list, ◌==◌,
}
use nvim_dot_files.Prelude.Result.{Result, ok, err, ◌>>=◌}
use nvim_dot_files.Prelude.Sets.{mem, adjoin, meets, some_of, same_set}
use nvim_dot_files.Prelude.Dicts.{Dict, at, keys, values, revise, option_or, is_some}
use nvim_dot_files.Prelude.Texts.{codes}
use nvim_dot_files.IndexGraph.Reader.{Text}
use nvim_dot_files.IndexGraph.Shard.{Symbol, Ref}
use nvim_dot_files.IndexGraph.Canonical.{Graph, FileEntry}
use nvim_dot_files.Admission.Symbols.{is_full, headers_of, same_headers}
use nvim_dot_files.Admission.Closure.{closure}
use nvim_dot_files.Admission.Collect.{Fault, bad_url}

-- The files that declare a symbol, and those that define it.
pub record Evidence : Type 0 where
  pub declares : List Text
  pub defines : List Text

abbrev no_evidence : Evidence
no_evidence = record { declares = []; defines = [] }

unfoldable pub add_symbol_evidence :
    List Text → List Symbol → Dict Text Evidence → Dict Text Evidence
unfolding mem revise
add_symbol_evidence wanted [] found = found
add_symbol_evidence wanted (s ∷ symbols) found = add_symbol_evidence wanted symbols (
    if mem s.id wanted
    then revise s.id no_evidence
        (λ v. record {
          declares = s.canonical_declaration.uri ∷ v.declares;
          defines = s.definition.uri ∷ v.defines;
        })
        found
    else found)

-- `kind & mask`
abbrev pub has_kind : ℕ → Ref → Bool
has_kind mask r = not (nat_eq (bit_and r.kind mask) 0)

unfoldable pub add_ref_evidence : List Text → List Ref → Dict Text Evidence → Dict Text Evidence
unfolding mem revise
add_ref_evidence wanted [] found = found
add_ref_evidence wanted (r ∷ refs) found = add_ref_evidence wanted refs (
    if mem r.symbol_id wanted && has_kind 3 r
    then revise r.symbol_id no_evidence
        (λ v. record {
          declares = r.location.uri ∷ v.declares;
          defines = if has_kind 2 r then r.location.uri ∷ v.defines else v.defines;
        })
        found
    else found)

unfoldable pub graph_evidence : List Text → Graph → Dict Text Evidence → Dict Text Evidence
unfolding add_symbol_evidence add_ref_evidence
graph_evidence wanted [] found = found
graph_evidence wanted ((uri, entry) ∷ graph) found =
    graph_evidence wanted graph
      (add_ref_evidence wanted entry.refs (add_symbol_evidence wanted entry.symbols found))

unfoldable pub provider_evidence : List Text → List Graph → List (Dict Text Evidence)
unfolding graph_evidence
provider_evidence wanted graphs =
    map (λ graph. if is_full wanted then graph_evidence wanted graph [] else []) graphs

-- `(decls | defs, defs)[body]`
unfoldable pub sites : Bool → Evidence → List Text
sites true v = v.defines
sites false v = v.declares ++ v.defines

-- A graph beside its evidence.
abbrev pub Context : Type 0
Context = Graph × Dict Text Evidence

abbrev pub contexts_of : List Graph → List (Dict Text Evidence) → List Context
contexts_of (g ∷ graphs) (v ∷ evidence) = (g, v) ∷ contexts_of graphs evidence
contexts_of graphs evidence = []

-- `exposes(index, header, body)`: in the graph, the header includes a site of the symbol.
unfoldable pub exposes : Text → Text → Bool → Context → Bool
unfolding at meets closure sites
exposes sid header body (graph, evidence) = elim (at sid evidence) [
  | none ↦ false
  | some v ↦ meets (option_or [] (closure graph header)) (sites body v)
]

-- `header in graph and exposes(i, header, body)` for some graph
unfoldable pub exposed : List Context → Text → Text → Bool → Bool
unfolding exposes some_of at
exposed contexts sid header body =
    some_of (λ c. is_some (at header c.0) && exposes sid header body c) contexts

abbrev source_suffixes : List Text
source_suffixes =
    codes ""
    ∷ codes ".h"
    ∷ codes ".hh"
    ∷ codes ".hpp"
    ∷ codes ".hxx"
    ∷ codes ".inc"
    ∷ codes ".inl"
    ∷ codes ".ipp"
    ∷ codes ".tcc"
    ∷ codes ".def"
    ∷ codes ".cuh"
    ∷ []

abbrev pub Urls : Type 0
Urls = Text → Option (Text × Text)

-- `urlparse(header).scheme == "file"`
unfoldable pub is_file : Urls → Text → Result Fault Bool
is_file urls header = elim (urls header) [
  | none ↦ err bad_url
  | some (scheme, suffix) ↦ ok (scheme == codes "file")
]

unfoldable pub all_files : Urls → List Text → Result Fault Bool
unfolding is_file
all_files urls [] = ok true
all_files urls (header ∷ headers) =
    let rest = all_files urls headers in is_file urls header >>= λ b. if b then rest else ok false

-- A new header is a file of the kinds that are included.
unfoldable pub is_source_header : Urls → Text → Result Fault Bool
unfolding mem
is_source_header urls header = elim (urls header) [
  | none ↦ err bad_url
  | some (scheme, suffix) ↦ ok (scheme == codes "file" && mem suffix source_suffixes)
]

-- The loop over the candidate's headers.
unfoldable pub providers_loop :
    Urls → List Context → Text → Bool → Dict Text ℕ → Dict Text ℕ → Result Fault Bool
unfolding at is_source_header exposed
providers_loop urls contexts sid body old [] = ok true
providers_loop urls contexts sid body old ((header, directives) ∷ new) =
    let rest = providers_loop urls contexts sid body old new in
    elim (at header old) [
      | some before ↦ if nat_eq before directives then rest else ok false
      | none ↦ is_source_header urls header >>= λ good.
          if good && exposed contexts sid header body then rest else ok false
    ]

unfoldable pub needs_body : List Context → Text → Dict Text ℕ → Bool
unfolding some_of exposed
needs_body contexts sid old = some_of (λ header. exposed contexts sid header true) (keys old)

unfoldable pub changed_providers :
    Urls → List Context → Text → Dict Text ℕ → Dict Text ℕ → Result Fault Bool
unfolding same_set all_files providers_loop needs_body
changed_providers urls contexts sid old new =
    if not (is_full new) || not (same_set (values old) (values new))
    then ok false
    else all_files urls (keys old) >>= λ files.
        if files
        then providers_loop urls contexts sid (needs_body contexts sid old) old new
        else ok false

unfoldable pub valid_providers :
    Urls → List Context → Text → List Symbol → List Symbol → Result Fault Bool
unfolding headers_of same_headers changed_providers
valid_providers urls contexts sid original candidate =
    if same_headers (headers_of original) (headers_of candidate)
    then ok true
    else changed_providers urls contexts sid (headers_of original) (headers_of candidate)
