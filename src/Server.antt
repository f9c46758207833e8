-- ===== src/Server.antt =====
-- server/server.go: the gRPC service of the vault, its requests and the session with a client.
pub mod Options
pub mod Modes
pub mod Serving
pub mod Session
