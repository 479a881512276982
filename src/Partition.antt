-- ===== src/Partition.antt =====
-- tools/cdb_partition.py: a database split by platform and configuration, and the choice of the active
-- part. An entry is whatever `classify` takes.
pub mod Groups
pub mod Active
pub mod Macros
pub mod Classify
pub mod Run
mod Tests
