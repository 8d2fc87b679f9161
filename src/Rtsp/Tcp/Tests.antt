-- ===== src/Rtsp/Tcp/Tests.antt =====
-- The theorem on frames at a concrete frame, with a repacketizer that counts its packets.
use edge_device_webrtc.Rtsp.Tcp.Frames.{rtp_write-interleaved, interleaved}
use edge_device_webrtc.Prelude.{
  refl, arith, take, ◌∷◌, ◌+◌, length, ◌≡◌, none, List, some, codes, Option, false, Text, ℕ, [],
}
use edge_device_webrtc.Rtsp.Tcp.{rtp_write, Rtcp, Sink, TcpRtpClient, returned, overrun}

abbrev no_reports : Rtcp
no_reports = record {
  sender_ssrc = λ d. 0;
  ntp_timestamp = λ d. 0;
  receiver_report = λ ssrc time. [];
  length_in_bytes = λ report. 32;
}

abbrev echoed : ℕ → Text → Option (ℕ × List Text)
echoed r p = some (r + 1, p ∷ [])

abbrev video_sink : Sink ℕ
video_sink = record { track = 5; repacketizer = 0 }

abbrev streaming : TcpRtpClient ℕ
streaming = record {
  stopped = false;
  video = some video_sink;
  audio = none;
  rtcp_write_buf = [];
  send_rtcp = false;
  sent = [];
  written = [];
}

rtp_write-interleaved_example :
    (rtp_write no_reports echoed (interleaved 0 (codes "abc")) streaming
      ≡ returned (length (interleaved 0 (codes "abc"))) (record streaming {
        video = some (record video_sink { repacketizer = 1 });
        sent = (5, codes "abc") ∷ [];
      }))
    × (rtp_write no_reports echoed (take (4 + 2) (interleaved 0 (codes "abc"))) streaming ≡ overrun)
rtp_write-interleaved_example =
    rtp_write-interleaved no_reports echoed (codes "abc") 2 video_sink (codes "abc" ∷ []) 1
      streaming (omega arith) (omega arith) refl refl
