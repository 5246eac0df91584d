-- ===== src/Store.antt =====
-- The crate dynamic-config-store-core: what the store crates share.
pub mod Concurrency
pub mod Credential
pub mod Documents
pub mod Redaction
pub mod Transform
pub mod Tls
pub mod Attempts
