-- ===== src/DiagnosticPolicy.antt =====
-- tools/clangd_diagnostic_compat.py: the flag that keeps one diagnostic a warning for Android C++17.
mod Tests
pub mod Version
pub mod Options
pub mod Transform
