-- ===== src/Relay.antt =====
-- The relay: internal/relay.
pub mod Limiter
pub mod Store
pub mod Markdown
pub mod Server
pub mod Telegram
pub mod Card
pub mod Commands
pub mod Http
