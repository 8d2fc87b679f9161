-- ===== src/Packetizer.antt =====
-- src/modules/rtp-packetizer and src/modules/rtp-repacketizer: byte streams to RTP packets.
pub mod Library
pub mod Pcmu
pub mod H264
mod Tests
