-- ===== src/Conn.antt =====
-- moonlight-sys/src/connection.rs: the one connection of the process, its frames and its end.
pub mod Defs
pub mod Bridge
pub mod Start
pub mod Frames
pub mod Lifecycle
pub mod Owned
pub mod Waiting
pub mod Unique
pub mod Samples
mod Tests
