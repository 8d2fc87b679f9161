-- ===== src/Rtp/Runner.antt =====
-- The thread of `RtpClient` and its receive callback (src/modules/rtp-client/rtp_client.cpp).
use edge_device_webrtc.Rtp.Client.{send_to, send_packet, RtpClient, RtpTrack, called}
use edge_device_webrtc.Rtp.Library.{RtpHeader}
use edge_device_webrtc.Prelude.{
  length, ltb, take, [], some, ◌∷◌, ◌==◌, none, if◌then◌else◌, Bool, ℕ, List, Option, Text,
}

module _ {R : Type 0} (handle : R → Text → Option (R × List Text)) (fails : ℕ → Text → Bool) where
  -- The packets to one track: `fails` is whether `send` gives `false`, which nothing looks at.
  unfoldable pub send_packets : ℕ → List Text → RtpClient R → RtpClient R
  unfolding called
  send_packets track [] s = s
  send_packets track (p ∷ ps) s =
      send_packets track ps (if fails track p then s else called (send_packet track p) s)

  -- The loop over the tracks, on those that are left: `handle` is the repacketizer of a track, or
  -- `none` where it throws. The tracks after it, and the client.
  unfoldable pub dispatch :
      Text → List (ℕ × RtpTrack R) → RtpClient R → List (ℕ × RtpTrack R) × RtpClient R
  unfolding send_packets
  dispatch data_ [] s = ([], s)
  dispatch data_ ((ref, t) ∷ ts) s = elim (handle t.repacketizer data_) [
    | none ↦ let (rest, after) = dispatch data_ ts s in ((ref, t) ∷ rest, after)
    | some (r, packets) ↦
        let (rest, after) = dispatch data_ ts (send_packets t.track packets s) in
        ((ref, record t { repacketizer = r }) ∷ rest, after)
  ]

  -- One round of `rtpVideoRunner`, from a datagram or an error of the socket; `none` is its end.
  unfoldable pub run_round : Option Text → RtpClient R → Option (RtpClient R)
  unfolding dispatch
  run_round received s = if s.stopped then none else elim received [
    | none ↦ none
    | some datagram ↦
        let data_ = take 2048 datagram in
        let (tracks, after) = dispatch data_ s.media_tracks s in
        some (if ltb (length data_) 12 then s else record after { media_tracks = tracks })
  ]

module _ {R : Type 0} (rtp : RtpHeader) where
  -- The receive callback of a track: packets of its payload type go to the remote port.
  unfoldable pub receive_packet : RtpTrack R → Text → RtpClient R → RtpClient R
  unfolding called
  receive_packet t buffer s =
      if rtp.payload_type buffer == t.dst_payload_type
      then called (send_to s.remote_port (rtp.set_payload_type t.src_payload_type buffer)) s
      else s
