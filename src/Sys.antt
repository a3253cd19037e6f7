-- ===== src/Sys.antt =====
-- The safe boundary around `moonlight-common-c` (moonlight-sys).
pub mod Floats
pub mod Types
pub mod Buttons
pub mod Control
pub mod Laws
pub mod Samples
mod Tests
pub mod Stream
