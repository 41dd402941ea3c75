-- ===== src/Gateway.antt =====
-- gateway/: what every gateway shares.
pub mod Access
pub mod Trigger
pub mod Common
pub mod Api
pub mod Find
pub mod Events
pub mod Bnet
pub mod Discord
pub mod Capi
pub mod Reconnect
pub mod Stdio
