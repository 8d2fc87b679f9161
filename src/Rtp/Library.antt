-- ===== src/Rtp/Library.antt =====
-- What the RTP client takes from libdatachannel, as an interface, and the repacketizers of
-- src/modules/rtp-repacketizer/rtp_repacketizer.cpp.
use edge_device_webrtc.Prelude.{[], ◌∷◌, ◌^◌, Text, ℕ, List, ◌<◌, ◌≡◌}

-- The header of an RTP packet, `rtc::RtpHeader`: reading and writing of its fields.
pub record RtpHeader : Type 0 where
  pub payload_type : Text → ℕ
  pub ssrc : Text → ℕ
  pub set_payload_type : ℕ → Text → Text
  pub set_ssrc : ℕ → Text → Text
  -- The packet without these two fields.
  pub content : Text → Text

-- A field that is written is read again, and the rest of the packet stays.
pub record RtpHeaderLaws (rtp : RtpHeader) : Type 0 where
  pub payload_type_set :
      (n : ℕ) (p : Text) → n < 128 → rtp.payload_type (rtp.set_payload_type n p) ≡ n
  pub ssrc_set : (n : ℕ) (p : Text) → n < 2 ^ 32 → rtp.ssrc (rtp.set_ssrc n p) ≡ n
  pub ssrc_kept : (n : ℕ) (p : Text) → rtp.ssrc (rtp.set_payload_type n p) ≡ rtp.ssrc p
  pub content_kept_type :
      (n : ℕ) (p : Text) → rtp.content (rtp.set_payload_type n p) ≡ rtp.content p
  pub content_kept_ssrc : (n : ℕ) (p : Text) → rtp.content (rtp.set_ssrc n p) ≡ rtp.content p

-- `RtpRepacketizer`.
pub record Repacketizer : Type 0 where
  pub ssrc : ℕ
  pub dst_payload_type : ℕ

-- `RtpRepacketizer::handlePacket`.
unfoldable pub handle_packet : RtpHeader → Repacketizer → Text → List Text
handle_packet rtp r p = rtp.set_payload_type r.dst_payload_type (rtp.set_ssrc r.ssrc p) ∷ []
