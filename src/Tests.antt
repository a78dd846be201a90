-- ===== src/Tests.antt =====
-- The theorems applied to concrete inputs, part by part.
pub mod Crypto
pub mod Audit
pub mod Policy
pub mod Gateway
pub mod Login
pub mod Analytics
pub mod Monitor
