-- ===== src/Gateway.antt =====
-- crates/qw-gateway/src
pub mod RateLimit
pub mod Resilience
pub mod Rbac
pub mod Auth
pub mod Login
pub mod CryptoPolicy
