-- ===== src/Rtp.antt =====
-- The streams of local media: src/modules/rtp-client and src/modules/rtp-repacketizer.
pub mod Library
pub mod Client
pub mod Runner
pub mod Running
pub mod Dispatch
mod Tests
