-- ===== src/Tests.antt =====
-- The theorems at concrete inputs.
mod Sign
mod Limiter
mod Store
mod Relay
mod Alerts
mod Rules
mod Commands
mod Host
mod Update
mod NodeConfig
