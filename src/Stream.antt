-- ===== src/Stream.antt =====
-- moonlight/src/stream.rs and stream_diagnostics.rs: the worker that starts a session and consumes its
-- video until it is stopped.
pub mod Defs
pub mod Diagnostics
pub mod Receive
pub mod Preview
pub mod Decode
pub mod Run
pub mod Handled
pub mod Ends
pub mod GivesBack
pub mod Released
mod Tests
