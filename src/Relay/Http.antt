-- ===== src/Relay/Http.antt =====
-- The HTTP side of the relay, of internal/relay/server.go.
pub mod Types
pub mod Names
pub mod Client
pub mod Handlers
pub mod Auth
