-- ===== src/Lib.antt =====
-- Verification library of the Python tools of this repository: the readers of clangd's index and of
-- compile databases under tools/.
--
-- Parts, and how they interact:
-- Prelude: Boolean tests, native-number lists, equality instances, results of fallible code, sorting.
-- IndexGraph: tools/clangd_index_graph.py, the reader of clangd's BackgroundIndex shards.
--     Reader is `_Reader`: a cursor is the suffix of bytes still to be read, a method that may raise
--     returns a `Result`, and a loop is `while_remaining` or `repeat`.
--     Riff is `_chunks`, Strings is `_strings`, Utf8 is `bytes.decode("utf-8", "surrogateescape")`,
--     Shard holds the records and the loop bodies of `decode_shard`, Decode is `decode_shard`,
--     Key is `_record_key` and its kin, Canonical is `canonical_file_graph`.
--     The dictionaries of the source are association lists in the order of insertion; bytes and code
--     points are numbers. `self.ids` of the cursor only shares equal strings, and is left out.
-- ShardOwners: tools/clangd_shard_owners.py, `read_owner` as an action on the open file: the position,
--     the bytes from there on, and the count of bytes read. It shares `_Reader` and `_strings` with
--     IndexGraph, as the source does.
-- Admission: tools/clangd_batch_admission.py, whether a batch's graph may stand for those of its units.
--     The graphs are those of IndexGraph.Canonical. Collect is `_collect`, Symbols holds `_headers`,
--     `_flags` and `_locations`, Closure and Providers are `_valid_providers` and `_provider_evidence`,
--     Templates is `_template_requests`, Compare is the checks of `compare_graphs` up to the removed
--     references, and Verdict is the rest of it. A `verdict(...)` is the error of the type `Check`; a
--     `set` is a list of which only the members are read.
-- TierMerge: tools/cdb_tier_merge.py. Superset is `graph_superset`, over the same graphs; Tokens is the
--     regular expression `_TOKENS`, each alternative a function that returns what it takes and what
--     follows; Definitions is the loop of `file_definitions`, a step on the record `Screen`.
-- Argv: tools/cdb_argv.py. Windows is `split_windows_command_line` (the loop of `_split_windows_argument`
--     recurses on the text, with a flag for the mark that it consumes in advance), Posix is `shlex.split`,
--     Syntax is `command_syntax` and `split_command_line` with `os.name == "nt"` as an argument, and
--     Normalize is `normalize_cdb` on entries that are association lists.
-- DiagnosticPolicy: tools/clangd_diagnostic_compat.py. Version holds its regular expressions, Options the
--     loop over the options, and Transform `transform_entry` and `apply_policy`, which returns the entries
--     that it writes; `Setting` holds the classes of characters beyond ASCII and the suffix of a path.
-- HotUnity: tools/build_hot_super_unity_cdb.py. Paths holds the portable names of members and modules and
--     `_source_positions`, Context `compile_context_key`, with the digest as an argument, Buckets the first loop
--     of `secondary_unity_chunks`, with `is_exact_cpp` and `_member_stems`, and Plan its loop over buckets of
--     unities whose sizes are given.
-- Partition: tools/cdb_partition.py. Groups is the dictionary that `main` groups the entries in, Active is
--     `pick_active_auto` and `parse_active_arg`, and Run is `main` from the entries on: it returns how the
--     run ends and what it has written; there `classify` is an argument, and an entry is anything that it
--     takes. Classify is `classify`, its regular expression written out, and Macros `_macro_configuration`.
-- OrderedUnity: tools/cdb_ordered_unity.py. Flags is `strip_write_only_flags` of
--     tools/build_hot_super_unity_cdb.py, Json `_json`, Parse `_parse` (a clause for a last argument and one
--     for an argument with another behind it), Headers `_definitions` and `_context`; Grouping is
--     `build_candidates` up to its groups, with the cache of headers as state, Chunks the cut of a group, and
--     Candidates the rest: `Outcome` holds what is returned and the files that are written. The record `Host`
--     holds what the paths of the host, the file system, the digest and the classes of characters answer;
--     `parse_entry` is an argument, as in the code.
-- ShardSeed: tools/clangd_shard_seed.py. A directory is an association list of its regular files, and the
--     record `System` says how `os.link` and the exclusive open answer for a name that is free.
--
-- Bounds and fuel: `while_remaining` gets as many rounds as its chunk has bytes; a body that succeeds
-- consumes one at least, so they are enough, and `decode_shard_ends` says so. The loop of `closure` gets
-- one round for the first file and one for each include of the graph, and `closure-Reaches` says that
-- they are enough. The search of `tokens`, that of `paths_in` and `blank_comments` get as many rounds as
-- the text has characters, each of which takes one at least. `scan_loop` gets st_size rounds, since each
-- reads a head of eight bytes. The loop of `split_windows_command_line` gets as many rounds as the line
-- has characters, and needs no more. A varint is at most five bytes, a chunk size and a container size
-- stand in 32 bits, and a string table or metadata chunk has 256 MiB at most.
--
-- Parameters: the compression library is the record `Zlib`, what `decompressobj().decompress` leaves; the
-- state of a file before and after reading is the record `Stat`; `System` is the file system that `seed`
-- asks; `Resolvers` are the callbacks of `compare_graphs`, which answer equal requests equally, and
-- `Urls` is what `urlparse` makes of a header.
--
-- Not modelled: the call of `CommandLineToArgvW`, file input and output, the JSON of `main`, timings, and
-- the texts of messages, which are constructors here. The other tools, the scripts and the Lua
-- configuration are not modelled.
pub mod Prelude
pub mod Admission
pub mod Argv
pub mod DiagnosticPolicy
pub mod HotUnity
pub mod IndexGraph
pub mod OrderedUnity
pub mod Partition
pub mod ShardOwners
pub mod ShardSeed
pub mod TierMerge
