-- ===== src/Alerts.antt =====
-- The node side of alerting: internal/alerts.
pub mod Sample
pub mod Config
pub mod Daemon
pub mod Rules
pub mod Summary
pub mod Client
