-- ===== src/Server.antt =====
-- pkg/server/server.go: the authentication webhook.
pub mod Render
pub mod Mapping
pub mod Authenticate
pub mod Chain
pub mod Start
pub mod Serve
mod Tests
