-- ===== src/Signaling.antt =====
-- src/library/signaling-stream: the Nabto stream that carries the signaling of one client.
pub mod State
pub mod Frame
pub mod Stream
pub mod Object
pub mod Events
pub mod Invariant
pub mod Manager
pub mod Order
pub mod Drain
pub mod Release
mod Tests
