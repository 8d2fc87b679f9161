-- ===== src/Packetizer/Library.antt =====
-- The RTP packetizer of libdatachannel, which src/modules/rtp-packetizer calls, as an interface.
use edge_device_webrtc.Prelude.{Text, List, ℕ}

-- `P` is the state of an `rtc::RtpPacketizer`; `outgoing` takes the configured timestamp and the
-- messages, and gives the messages with their RTP headers.
pub record Outgoing (P : Type 0) : Type 0 where
  pub outgoing : ℕ → List Text → P → List Text × P
