-- ===== src/Server.antt =====
-- The crate dynamic-config-server: the server and its client.
pub mod Auth
pub mod Names
pub mod Config
pub mod Audit
pub mod Document
pub mod Live
pub mod Generations
pub mod Routes
pub mod Start
pub mod Kubernetes
pub mod Client
