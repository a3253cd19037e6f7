-- ===== src/Audio.antt =====
-- moonlight-sys/src/audio.rs: the boundary between the audio callbacks of the C core and a renderer.
pub mod Setup
pub mod Callbacks
pub mod Latch
mod Tests
