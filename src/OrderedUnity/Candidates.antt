-- ===== src/OrderedUnity/Candidates.antt =====
-- The second half of `build_candidates` in tools/cdb_ordered_unity.py: the candidate of each chunk, and the
-- entries that stay.
pub mod Chunked
pub mod Records
pub mod Restored
pub mod Accounted
use nvim_dot_files.Prelude.{
  ℕ, zero, suc, ◌+◌, Bool, true, false, not, ◌||◌, ◌&&◌, List, [], ◌∷◌, ◌++◌, Option, none, some,
  nat_eq, ltb, length, Eq-number, Eq-list, ◌==◌, if◌then◌else◌, map, take, drop,
}
use nvim_dot_files.Prelude.Texts.{Text, codes}
use nvim_dot_files.Prelude.Result.{Result, ok, err, ◌>>=◌}
use nvim_dot_files.Prelude.Sets.{mem, adjoin}
use nvim_dot_files.Prelude.Dicts.{Dict, at, assign, keys, values, option_or}
use nvim_dot_files.Prelude.Sorting.{sorted_by}
use nvim_dot_files.IndexGraph.Key.Compare.{text_order}
use nvim_dot_files.OrderedUnity.Json.{
  Json, string, array, object, array_of, strings, fields_of, json,
}
use nvim_dot_files.OrderedUnity.Parse.{
  Host, Reason, candidate_budgets, Entry, Parsed, parse, source_mark,
}
use nvim_dot_files.OrderedUnity.Chunks.{chunks_of}
use nvim_dot_files.OrderedUnity.Grouping.{
  Membership, map_membership, source_key, Setup, HeaderCache, Item, Rejection, Grouping, no_groups,
  group_entries,
}

abbrev pub size_of : Item → ℕ
size_of item = length item.members

-- The chunks of all groups.
unfoldable pub all_chunks : ℕ → ℕ → List (List Item) → List (List Item)
unfolding chunks_of
all_chunks max_originals max_sources [] = []
all_chunks max_originals max_sources (group ∷ groups) =
    chunks_of size_of max_originals max_sources group ++ all_chunks max_originals max_sources groups

abbrev macros_in : HeaderCache → Text → List Text
macros_in headers path = keys (option_or ([], []) (at path headers)).0

abbrev digest_of : HeaderCache → Text → Text
digest_of headers path = (option_or ([], []) (at path headers)).1

unfoldable pub concat : List (List Text) → List Text
concat [] = []
concat (t ∷ ts) = t ++ concat ts

unfoldable pub adjoin_all : List Text → List Text → List Text
unfolding adjoin
adjoin_all [] s = s
adjoin_all (x ∷ xs) s = adjoin_all xs (adjoin x s)

-- The definition headers of a chunk, in order.
abbrev pub headers_in : List Item → List Text
headers_in chunk = concat (map (λ item. item.definitions) chunk)

-- The macros that some header of the chunk touches, sorted.
unfoldable pub touched : HeaderCache → List Item → List Text
unfolding sorted_by adjoin_all concat at
touched headers chunk =
    sorted_by text_order (λ name. name)
      (adjoin_all (concat (map (macros_in headers) (headers_in chunk))) [])

-- The search options, each at its first place.
unfoldable pub options_loop : List (List Text) → List (List Text) → List Text
unfolding mem
options_loop [] seen = []
options_loop (option ∷ options) seen =
    let known = options_loop options seen in
    let fresh = option ++ options_loop options (option ∷ seen) in
    if mem option seen then known else fresh

unfoldable pub all_options : List Item → List (List Text)
all_options [] = []
all_options (item ∷ chunk) = item.search ++ all_options chunk

unfoldable pub search_of : List Item → List Text
unfolding options_loop all_options
search_of chunk = options_loop (all_options chunk) []

-- The lines of a candidate. A name or a path stands between quotation marks.
pub data Line : Type 0 where
  notice : Line
  original push pop include : Text → Line

unfoldable pub reverse_onto : List Text → List Text → List Text
reverse_onto [] back = back
reverse_onto (x ∷ xs) back = reverse_onto xs (x ∷ back)

unfoldable pub item_lines : List Text → Item → List Line
unfolding reverse_onto
item_lines names item =
    original item.source
    ∷ (map push names
        ++ (map include item.definitions ++ include item.source ∷ map pop (reverse_onto names [])))

unfoldable pub chunk_lines : List Text → List Item → List Line
unfolding item_lines
chunk_lines names [] = []
chunk_lines names (item ∷ chunk) = item_lines names item ++ chunk_lines names chunk

unfoldable pub line_text : Line → Text
line_text notice = codes "// Ordered Unity candidate only; semantic admission is required."
line_text (original source) = codes "// Original Unity: " ++ source
line_text (push name) = codes "#pragma push_macro(" ++ 34 ∷ name ++ 34 ∷ codes ")"
line_text (pop name) = codes "#pragma pop_macro(" ++ 34 ∷ name ++ 34 ∷ codes ")"
line_text (include path) = codes "#include " ++ 34 ∷ path ++ 34 ∷ []

-- `'\n'.join(lines) + '\n'`
unfoldable pub body_text : List Line → Text
unfolding line_text
body_text [] = []
body_text (line ∷ lines) = line_text line ++ 10 ∷ body_text lines

unfoldable pub hashes : HeaderCache → List Text → Dict Text Text → Dict Text Text
unfolding assign at
hashes headers [] d = d
hashes headers (path ∷ paths) d = hashes headers paths (assign path (digest_of headers path) d)

-- The text whose digest names the candidate.
unfoldable pub identity_text :
    Text → List Text → List Text → Dict Text Text → List Item → Text → Text
unfolding json strings array_of fields_of
identity_text body common search digests chunk directory = json (
    array (
      array_of (
        string body
        ∷ strings common
        ∷ strings search
        ∷ object (fields_of (map (λ p. (p.0, string p.1)) digests))
        ∷ array (array_of (map (λ item. strings item.members) chunk))
        ∷ string directory
        ∷ [])))

pub record Record : Type 0 where
  pub candidate : Entry
  pub original_entries : List Entry
  pub original_indexes : List ℕ
  pub members : List Text
  pub definitions : List (List Text)
  pub definition_sha256 : Dict Text Text
  pub source_class : Text

-- `str(path) if arg == '<SOURCE>' else arg`
unfoldable pub with_path : Text → List Text → List Text
with_path path [] = []
with_path path (arg ∷ args) = (if arg == source_mark then path else arg) ∷ with_path path args

-- The record of a chunk that starts with `first`, and the text of its file.
unfoldable pub record_of : Host → Text → HeaderCache → Item → List Item → Record × Text
unfolding touched search_of chunk_lines body_text hashes identity_text with_path concat
record_of host output headers first others =
    let chunk = first ∷ others in
    let names = touched headers chunk in
    let search = search_of chunk in
    let body = body_text (notice ∷ chunk_lines names chunk) in
    let digests = hashes headers (headers_in chunk) [] in
    let text = identity_text body first.common search digests chunk first.entry.directory in
    let path =
      host.path_text
        (host.join output (codes "SuperUnity.Ordered." ++ host.sha256 text ++ codes ".cpp")) in
    let args = with_path path first.common in
    (
      record {
        candidate = record {
          directory = first.entry.directory;
          file = path;
          arguments = take 1 args ++ search ++ drop 1 args;
        };
        original_entries = map (λ item. item.entry) chunk;
        original_indexes = map (λ item. item.index) chunk;
        members = concat (map (λ item. item.members) chunk);
        definitions = map (λ item. item.definitions) chunk;
        definition_sha256 = digests;
        source_class = first.source_class;
      },
      body,
    )

-- What the loop over the chunks has made; a file that is written has a path and a text.
pub record Made : Type 0 where
  pub records : List Record
  pub retained : List ℕ
  pub written : Dict Text Text

abbrev pub keep_single : Item → Made → Made
keep_single item m = record {
  records = m.records;
  retained = adjoin item.index m.retained;
  written = m.written;
}

abbrev pub add_record : Record × Text → Made → Made
add_record (r, body) m = record {
  records = m.records ++ r ∷ [];
  retained = m.retained;
  written = assign r.candidate.file body m.written;
}

unfoldable pub make_candidate : Host → Text → HeaderCache → List Item → Made → Made
unfolding record_of adjoin assign
make_candidate host output headers [] m = m
make_candidate host output headers (item ∷ []) m = keep_single item m
make_candidate host output headers (first ∷ second ∷ others) m =
    add_record (record_of host output headers first (second ∷ others)) m

unfoldable pub make_candidates : Host → Text → HeaderCache → List (List Item) → Made → Made
unfolding make_candidate
make_candidates host output headers [] m = m
make_candidates host output headers (chunk ∷ chunks) m =
    make_candidates host output headers chunks (make_candidate host output headers chunk m)

-- `[entry for index, entry in enumerate(entries) if index in retained]`
unfoldable pub retained_entries : List ℕ → ℕ → List Entry → List Entry
unfolding mem
retained_entries retained index [] = []
retained_entries retained index (entry ∷ entries) =
    let rest = retained_entries retained (suc index) entries in
    if mem index retained then entry ∷ rest else rest

pub record Outcome : Type 0 where
  pub candidates : List Entry
  pub entries_kept : List Entry
  pub groups : List Record
  pub rejections : List Rejection
  pub files : Dict Text Text

-- From the map of members on.
unfoldable pub build_from : Setup → ℕ → Text → List Entry → Outcome
unfolding group_entries all_chunks make_candidates retained_entries
build_from setup max_originals output entries =
    let g = group_entries setup 0 entries no_groups in
    let made =
      make_candidates setup.host output g.headers
        (all_chunks max_originals setup.max_sources (values g.groups))
        (record { records = []; retained = g.retained; written = [] }) in
    record {
      candidates = map (λ r. r.candidate) made.records;
      entries_kept = retained_entries made.retained 0 entries;
      groups = made.records;
      rejections = g.rejections;
      files = made.written;
    }

unfoldable pub build_candidates :
    Host
    → (Entry → Result Reason Parsed)
    → ℕ
    → ℕ
    → Text
    → List Entry
    → Membership
    → Result Reason Outcome
unfolding map_membership source_key build_from
build_candidates host parse_entry max_originals max_sources output entries membership =
    if ltb max_originals 2 || ltb max_sources 1
    then err candidate_budgets
    else (map_membership host membership [] >>= λ mapped. ok (
        build_from
          (record {
            host = host;
            parse_entry = parse_entry;
            max_sources = max_sources;
            mapped = mapped;
            source_keys = map (source_key host) entries;
          })
          max_originals output entries))
