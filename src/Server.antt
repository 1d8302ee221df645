-- ===== src/Server.antt =====
-- server/cmd/server/main.go: what the clients rely on of the server.
pub mod Roles
pub mod Routes
pub mod Rules
