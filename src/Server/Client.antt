-- ===== src/Server/Client.antt =====
-- dynamic-config-server/src/client: reading configuration from a config server.
pub mod Endpoint
pub mod Watch
