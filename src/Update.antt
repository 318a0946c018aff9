-- ===== src/Update.antt =====
-- Release checks and the replacement of the program of internal/update/update.go.
pub mod Version
pub mod Cache
pub mod Disk
pub mod Install
