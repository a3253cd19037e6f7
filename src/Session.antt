-- ===== src/Session.antt =====
-- moonlight-control/src/session.rs: launching, resuming and cancelling an application on the host.
pub mod Defs
pub mod Request
pub mod Start
pub mod Ready
pub mod Valid
pub mod Steps
pub mod Outcome
mod Tests
