-- ===== src/Config.antt =====
-- What the client keeps on disk: moonlight-control/src/settings.rs and hosts.rs.
pub mod Files
pub mod Settings
pub mod Hosts
pub mod History
mod Tests
