-- ===== src/Audit.antt =====
-- crates/qw-audit/src
pub mod Entry
pub mod Chain
pub mod Checkpoint
pub mod Verifier
pub mod Logger
