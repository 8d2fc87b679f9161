-- ===== src/Packetizer/H264.antt =====
-- src/modules/rtp-packetizer/h264_packetizer.{hpp,cpp}: an Annex B byte stream to NAL units, and
-- those to RTP payloads.
pub mod Nal
pub mod Stream
pub mod Fragments
pub mod Rounds
pub mod Units
