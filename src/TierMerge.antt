-- ===== src/TierMerge.antt =====
-- tools/cdb_tier_merge.py: whether a merged index may stand for several, and which names of a source
-- file would clash with those of another.
mod Tests
pub mod Superset
pub mod Tokens
pub mod Definitions
