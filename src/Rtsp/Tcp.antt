-- ===== src/Rtsp/Tcp.antt =====
-- `TcpRtpClient` of src/modules/rtsp-client/tcp_rtp_client.cpp: RTP and RTCP in frames on the
-- connection of RTSP. `R` is the type of repacketizers.
pub mod Frames
pub mod Run
mod Tests
use edge_device_webrtc.Prelude.{
  true, replicate, none, ◌>>=◌, ◌++◌, ◌*◌, length, ◌||◌, ◌==◌, ◌/◌, ◌+◌, take, ltb, is_none, [],
  ◌∷◌, ◌%◌, some, if◌then◌else◌, get_or, false, drop, Text, ℕ, Bool, Option, List,
}

-- The reports of RTCP that libdatachannel reads and writes: the SSRC and the timestamp of a sender
-- report, and the receiver report that answers them, with its length in bytes.
pub record Rtcp : Type 0 where
  pub sender_ssrc : Text → ℕ
  pub ntp_timestamp : Text → ℕ
  pub receiver_report : ℕ → ℕ → Text
  pub length_in_bytes : Text → ℕ

-- A media track with its repacketizer.
pub record Sink (R : Type 0) : Type 0 where
  pub track : ℕ
  pub repacketizer : R

pub record TcpRtpClient (R : Type 0) : Type 0 where
  pub stopped : Bool
  pub video : Option (Sink R)
  pub audio : Option (Sink R)
  pub rtcp_write_buf : Text
  pub send_rtcp : Bool
  -- The packets that went to tracks, and what went to the socket.
  pub sent : List (ℕ × Text)
  pub written : List Text

-- How a callback ends: with the count that it returns, with an exception of the repacketizer, or
-- with a read behind the data.
pub data Written (R : Type 0) : Type 0 where
  returned : ℕ → TcpRtpClient R → Written R
  thrown overrun : Written R

-- A big-endian number of two bytes at an index, as `rtp_write` reads it.
abbrev pub read_be16 : ℕ → Text → ℕ
read_be16 i d = get_or d (i + 1) 0 + get_or d i 0 * 256

-- A number of two bytes in memory, as a `uint16_t` of the machine, which is little-endian.
abbrev pub le16 : ℕ → Text
le16 n = n % 256 ∷ n / 256 % 256 ∷ []

abbrev pub read_le16 : ℕ → Text → ℕ
read_le16 i d = get_or d i 0 + get_or d (i + 1) 0 * 256

-- `track->send` for each packet.
abbrev pub send_all : ℕ → List Text → List (ℕ × Text)
send_all track [] = []
send_all track (p ∷ ps) = (track, p) ∷ send_all track ps

module _ {R : Type 0} (rtcp : Rtcp) (handle : R → Text → Option (R × List Text)) where
  -- What a frame brings to a track, if there is one: the sink after it, and the packets; `none` is
  -- an exception.
  unfoldable pub forward : Text → Option (Sink R) → Option (Option (Sink R) × List (ℕ × Text))
  forward payload none = some (none, [])
  forward payload (some sink) = do
    (r, packets) ← handle sink.repacketizer payload
    some (some (record sink { repacketizer = r }), send_all sink.track packets)

  -- A frame for the video and for the audio track. The vector that is made of the payload is read
  -- up to the length in the frame, whatever the length of the data.
  unfoldable pub write_video : Text → TcpRtpClient R → Written R
  unfolding forward
  write_video d s =
      if is_none s.video
      then returned (length d) s
      else (if ltb (length d) (4 + read_be16 2 d)
          then overrun
          else elim (forward (take (read_be16 2 d) (drop 4 d)) s.video) [
            | none ↦ thrown
            | some (sink, packets) ↦
                returned (length d) (record s { video = sink; sent = s.sent ++ packets })
          ])

  unfoldable pub write_audio : Text → TcpRtpClient R → Written R
  unfolding forward
  write_audio d s =
      if is_none s.audio
      then returned (length d) s
      else (if ltb (length d) (4 + read_be16 2 d)
          then overrun
          else elim (forward (take (read_be16 2 d) (drop 4 d)) s.audio) [
            | none ↦ thrown
            | some (sink, packets) ↦
                returned (length d) (record s { audio = sink; sent = s.sent ++ packets })
          ])

  -- The frame that answers a sender report: `$`, the channel, the length as it lies in memory, and
  -- the report, in a buffer of 64 bytes.
  unfoldable pub report_frame : ℕ → Text → Text
  report_frame channel d =
      let report =
        rtcp.receiver_report (rtcp.sender_ssrc (drop 4 d)) (rtcp.ntp_timestamp (drop 4 d)) in
      take 64 (b'$' ∷ channel ∷ le16 (rtcp.length_in_bytes report) ++ (report ++ replicate 64 0))

  -- A sender report: its SSRC and timestamp end 20 bytes into the data.
  unfoldable pub write_rtcp : Text → TcpRtpClient R → Written R
  unfolding report_frame
  write_rtcp d s =
      if ltb (length d) 20
      then overrun
      else returned (length d)
          (record s { rtcp_write_buf = report_frame (get_or d 1 0) d; send_rtcp = true })

  -- By the channel: 0 is video, 2 is audio, and all else is RTCP.
  unfoldable pub write_channel : Text → TcpRtpClient R → Written R
  unfolding write_video write_audio write_rtcp
  write_channel d s =
      let channel = get_or d 1 0 in
      if channel == 0
      then write_video d s
      else (if channel == 2 then write_audio d s else write_rtcp d s)

  unfoldable pub rtp_write : Text → TcpRtpClient R → Written R
  unfolding write_channel
  rtp_write d s =
      if ltb (length d) 4
      then returned (length d) s
      else (if get_or d 0 0 == b'$' then write_channel d s else returned (length d) s)
