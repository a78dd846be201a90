-- ===== src/Cbom.antt =====
-- crates/qw-cbom/src: the policies on the cryptography that the scans find.
pub mod Agility
