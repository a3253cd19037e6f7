-- ===== src/Scarlet.antt =====
-- moonlight-sys/src/scarlet.rs: what the C core is given on Scarlet.
pub mod Mutex
pub mod Sound
pub mod Exclusion
pub mod Os
pub mod Alloc
pub mod Rounding
pub mod Payload
pub mod Address
pub mod Socket
pub mod Options
pub mod Handles
pub mod Lookup
pub mod Chain
mod Tests
