-- ===== src/Crypto.antt =====
-- crates/qw-crypto/src
pub mod Primitives
pub mod Merkle
