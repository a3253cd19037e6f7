-- ===== src/Control.antt =====
-- moonlight-control/src/client.rs and xml.rs: finding a host, reading its answers and pairing with it.
pub mod Defs
pub mod Calls
pub mod Xml
pub mod Pairing
pub mod Client
pub mod Accepted
pub mod Proved
pub mod Paired
mod Tests
