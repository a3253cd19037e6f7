-- ===== src/Touch.antt =====
-- moonlight/src/touch.rs: touches of the video surface become contacts of the host.
pub mod Defs
pub mod Route
pub mod Contacts
pub mod Valid
pub mod Surface
pub mod Stuck
pub mod Held
pub mod Events
mod Tests
