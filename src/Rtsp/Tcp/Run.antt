-- ===== src/Rtsp/Tcp/Run.antt =====
-- The loop of `TcpRtpClient::run` (src/modules/rtsp-client/tcp_rtp_client.cpp).
use edge_device_webrtc.Prelude.{
  get_or, take, ◌++◌, ltb, ◌^◌, [], ◌%◌, none, ◌∷◌, ◌+◌, not, ◌||◌, some, if◌then◌else◌, false, ℕ,
  Option, List, Text, Bool,
}
use edge_device_webrtc.Rtsp.Tcp.{
  Sink, overrun, thrown, returned, read_le16, rtp_write, TcpRtpClient, Rtcp,
}

-- What libcurl and the socket answer in one round: whether the options can be set, the frames that
-- the request receives, whether it succeeds, whether there is a socket, and what `write` returns, 0 for an error.
pub record Answers : Type 0 where
  pub options_set : Bool
  pub frames : List Text
  pub performed : Bool
  pub socket : Bool
  pub write_result : ℕ

-- How a round ends: with the next one, or with the end of the loop.
pub data Round (R : Type 0) : Type 0 where
  again break_ : TcpRtpClient R → Round R
  broken : Round R

module _ {R : Type 0} (rtcp : Rtcp) (handle : R → Text → Option (R × List Text)) where
  -- The calls of `rtp_write` that the request makes; `none` is an exception or an overrun.
  unfoldable pub receive_frames : List Text → TcpRtpClient R → Option (TcpRtpClient R)
  unfolding rtp_write
  receive_frames [] s = some s
  receive_frames (d ∷ ds) s = elim (rtp_write rtcp handle d s) [
    | returned n t ↦ receive_frames ds t
    | thrown ↦ none
    | overrun ↦ none
  ]

  -- The report goes out with the length that stands in it; a write of more than the 64 bytes of
  -- the buffer reads behind it.
  unfoldable pub send_report : Answers → TcpRtpClient R → Round R
  send_report a s =
      let t = record s { send_rtcp = false } in
      let size = (read_le16 2 s.rtcp_write_buf + 4) % 2 ^ 16 in
      if not a.socket
      then again t
      else (if ltb 64 size
          then broken
          else (let u = record t { written = t.written ++ take size s.rtcp_write_buf ∷ [] } in
              if ltb a.write_result size then break_ u else again u))

  unfoldable pub run_round : Answers → TcpRtpClient R → Round R
  unfolding receive_frames send_report
  run_round a s =
      if s.stopped || not a.options_set then break_ s else elim (receive_frames a.frames s) [
        | none ↦ broken
        | some t ↦
            if not a.performed then break_ t else (if t.send_rtcp then send_report a t else again t)
      ]

  -- The loop over the answers of its rounds, and `run`, which starts it.
  unfoldable pub run_rounds : List Answers → TcpRtpClient R → Round R
  unfolding run_round
  run_rounds [] s = again s
  run_rounds (a ∷ answers) s = elim (run_round a s) [
    | again t ↦ run_rounds answers t
    | break_ t ↦ break_ t
    | broken ↦ broken
  ]

  unfoldable pub run : List Answers → TcpRtpClient R → Round R
  unfolding run_rounds
  run answers s = run_rounds answers (record s { stopped = false })

-- A media track as `setConnection` gets it: the payload types of its description.
pub record OfferedTrack : Type 0 where
  pub track : ℕ
  pub payload_types : List ℕ

module _ {R : Type 0} (make : ℕ → ℕ → ℕ → R) where
  -- The sink of a track: `make` is the factory, for a track, an SSRC and the first payload type.
  unfoldable pub sink_of : ℕ → OfferedTrack → Sink R
  sink_of ssrc t = record {
    track = t.track;
    repacketizer = make t.track ssrc (get_or t.payload_types 0 0);
  }

  -- A track that is `nullptr` leaves what was there.
  unfoldable pub replace_sink : ℕ → Option OfferedTrack → Option (Sink R) → Option (Sink R)
  unfolding sink_of
  replace_sink ssrc none old = old
  replace_sink ssrc (some t) old = some (sink_of ssrc t)

  unfoldable pub set_connection :
      ℕ → ℕ → Option OfferedTrack → Option OfferedTrack → TcpRtpClient R → TcpRtpClient R
  unfolding replace_sink
  set_connection video_ssrc audio_ssrc video audio s = record s {
    video = replace_sink video_ssrc video s.video;
    audio = replace_sink audio_ssrc audio s.audio;
  }
