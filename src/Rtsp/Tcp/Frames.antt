-- ===== src/Rtsp/Tcp/Frames.antt =====
-- The interleaved frames of `TcpRtpClient` (src/modules/rtsp-client/tcp_rtp_client.cpp) against their
-- format: `$`, a channel, the length in network byte order, and the payload.
use edge_device_webrtc.Prelude.{
  suc, drop, ◌≤◌, true, length-take, ◌∙◌, refl, take-length, ltb, is_none, take, ◌++◌, false, some,
  arith, ◌≡◌, ◌*◌, ◌+◌, ◌^◌, ◌<◌, ◌%◌, ◌/◌, length, List, ◌∷◌, Option, ℕ, Text,
}
use edge_device_webrtc.Rtsp.Tcp.{
  read_be16, overrun, send_all, returned, Sink, forward, write_video, write_channel, rtp_write,
  TcpRtpClient, Rtcp,
}

abbrev pub interleaved : ℕ → Text → Text
interleaved channel payload =
    b'$' ∷ channel ∷ length payload / 256 % 256 ∷ length payload % 256 ∷ payload

module _ {R : Type 0} (rtcp : Rtcp) (handle : R → Text → Option (R × List Text)) where
  frame_length :
      (payload : Text)
      → length payload < 2 ^ 16
      → length payload % 256 + length payload / 256 % 256 * 256 ≡ length payload
  frame_length payload h = omega arith

  cut_frame :
      (n hi lo : ℕ) (payload : Text)
      → take (4 + n) (b'$' ∷ 0 ∷ hi ∷ lo ∷ payload) ≡ b'$' ∷ 0 ∷ hi ∷ lo ∷ take n payload
  cut_frame n hi lo payload = let e : 4 + n ≡ suc (suc (suc (suc n))) = omega arith in rw e refl

  rtp_write-video :
      (hi lo : ℕ) (body : Text) (s : TcpRtpClient R)
      → rtp_write rtcp handle (b'$' ∷ 0 ∷ hi ∷ lo ∷ body) s
        ≡ write_video rtcp handle (b'$' ∷ 0 ∷ hi ∷ lo ∷ body) s
  unfolding rtp_write write_channel
  rtp_write-video hi lo body s = ground arith

  write_video-overrun :
      (d : Text) (s : TcpRtpClient R)
      → is_none s.video ≡ false
      → length d < 4 + read_be16 2 d
      → write_video rtcp handle d s ≡ overrun
  unfolding write_video
  write_video-overrun d s on short =
      let cut : ltb (length d) (4 + read_be16 2 d) ≡ true = ground arith in rw (on, cut) refl

  write_video-whole :
      (d : Text) (sink : Option (Sink R)) (packets : List (ℕ × Text)) (s : TcpRtpClient R)
      → is_none s.video ≡ false
      → 4 + read_be16 2 d ≤ length d
      → forward rtcp handle (take (read_be16 2 d) (drop 4 d)) s.video ≡ some (sink, packets)
      → write_video rtcp handle d s
        ≡ returned (length d) (record s { video = sink; sent = s.sent ++ packets })
  unfolding write_video
  write_video-whole d sink packets s on whole forwards =
      let enough : ltb (length d) (4 + read_be16 2 d) ≡ false = ground arith in
      rw (on, enough, forwards) refl

  forward-sink :
      (payload : Text) (sink : Sink R) (r : R) (packets : List Text)
      → handle sink.repacketizer payload ≡ some (r, packets)
      → forward rtcp handle payload (some sink)
        ≡ some (some (record sink { repacketizer = r }), send_all sink.track packets)
  unfolding forward
  forward-sink payload sink r packets made = rw made refl

  -- A frame on the video channel hands exactly its payload to the repacketizer of the video track and
  -- sends what that makes of it, and returns the size of the frame. When the data end before the
  -- payload does, the payload is read behind the end of the data: the length in the frame is
  -- compared with nothing.
  pub rtp_write-interleaved :
      (payload : Text) (n : ℕ) (sink : Sink R) (packets : List Text) (r : R) (s : TcpRtpClient R)
      → length payload < 2 ^ 16
      → n < length payload
      → s.video ≡ some sink
      → handle sink.repacketizer payload ≡ some (r, packets)
      → (rtp_write rtcp handle (interleaved 0 payload) s
          ≡ returned (length (interleaved 0 payload)) (record s {
            video = some (record sink { repacketizer = r });
            sent = s.sent ++ send_all sink.track packets;
          }))
        × (rtp_write rtcp handle (take (4 + n) (interleaved 0 payload)) s ≡ overrun)
  rtp_write-interleaved payload n sink packets r s h l v made =
      let whole = frame_length payload h in
      let video_on : is_none s.video ≡ false = rw v refl in
      let d = interleaved 0 payload in
      let hi = length payload / 256 % 256 in
      let lo = length payload % 256 in
      (
        rtp_write-video hi lo payload s
            ∙ write_video-whole d (some (record sink { repacketizer = r }))
                (send_all sink.track packets) s video_on (omega (arith, whole))
                (rw (whole, take-length payload, v) (forward-sink payload sink r packets made)),
        rw (cut_frame n hi lo payload) (
            rtp_write-video hi lo (take n payload) s
            ∙ write_video-overrun (b'$' ∷ 0 ∷ hi ∷ lo ∷ take n payload) s video_on
                (omega (arith, whole, length-take n payload))),
      )
