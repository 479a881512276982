-- ===== src/Admission.antt =====
-- tools/clangd_batch_admission.py: whether a batch's graph may stand for those of its original units.
mod Tests
pub mod Symbols
pub mod Closure
pub mod Collect
pub mod Providers
pub mod Templates
pub mod Compare
pub mod Verdict
