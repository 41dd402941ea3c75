-- ===== src/Config.antt =====
-- config.go
pub mod RelayTable
pub mod Compact
pub mod Nested
pub mod Reflect
pub mod Merge
