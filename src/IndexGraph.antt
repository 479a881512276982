-- ===== src/IndexGraph.antt =====
-- tools/clangd_index_graph.py: clangd's BackgroundIndex shards, read from their bytes.
pub mod Reader
pub mod Riff
pub mod Utf8
pub mod Strings
pub mod Shard
pub mod Decode
pub mod Key
pub mod Canonical
pub mod Sample
mod Tests
