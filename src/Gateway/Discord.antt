-- ===== src/Gateway/Discord.antt =====
-- gateway/discord/: the Discord gateway. Its session is a library.
pub mod JoinMode
pub mod Online
pub mod Users
pub mod Presence
pub mod Messages
pub mod Mentions
pub mod Relay
