-- ===== src/Gamepad.antt =====
-- moonlight/src/gamepad.rs: snapshots of local gamepads become session-local controllers.
pub mod Defs
pub mod Sync
pub mod Mask
pub mod Loops
pub mod Host
pub mod Mirror
pub mod Delivery
pub mod Synced
pub mod Slots
pub mod Observe
pub mod Translate
pub mod Refinement
mod Tests
