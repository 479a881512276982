-- ===== src/OrderedUnity.antt =====
-- tools/cdb_ordered_unity.py: candidates for unities of unities, which keep the order of their members.
mod Tests
pub mod Flags
pub mod Json
pub mod Parse
pub mod Headers
pub mod Chunks
pub mod Grouping
pub mod Candidates
