-- ===== src/Policy.antt =====
-- crates/qw-policy/src
pub mod Types
pub mod Glob
pub mod Engine
pub mod Loader
