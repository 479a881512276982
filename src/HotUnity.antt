-- ===== src/HotUnity.antt =====
-- tools/build_hot_super_unity_cdb.py: how members are named, and which unities are planned together.
mod Tests
pub mod Paths
pub mod Stable
pub mod Context
pub mod Buckets
pub mod Plan
