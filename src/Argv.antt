-- ===== src/Argv.antt =====
-- tools/cdb_argv.py: command strings of a compile database, split into arguments.
pub mod Windows
pub mod Posix
pub mod Syntax
pub mod Normalize
mod Tests
