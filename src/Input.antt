-- ===== src/Input.antt =====
-- moonlight/src/input.rs: keys, mouse and wheel of the surface become input of the host.
pub mod Keys
pub mod Wheel
pub mod Defs
pub mod Remote
pub mod Sets
pub mod Shortcuts
pub mod Tracking
pub mod Release
mod Samples
mod Tests
