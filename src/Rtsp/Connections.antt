-- ===== src/Rtsp/Connections.antt =====
-- How `RtspClient` (src/modules/rtsp-client/rtsp_client.cpp) hands connections to its clients, and
-- how it stops them.
use edge_device_webrtc.Prelude.{none, some, ◌∷◌, if◌then◌else◌, [], ◌++◌, Option, Bool, List, ℕ}

-- The calls on the TCP client, the clients for video and audio, those for RTCP, and `curl_`; tracks
-- are numbers.
pub data RtspCall : Type 0 where
  tcp_set : ℕ → Option ℕ → Option ℕ → RtspCall
  video_add audio_add : ℕ → ℕ → RtspCall
  video_remove audio_remove : ℕ → RtspCall
  video_rtcp_stop audio_rtcp_stop tcp_stop curl_stop : RtspCall

-- Which of the clients there are.
pub record Clients : Type 0 where
  pub tcp_client : Bool
  pub video_stream : Bool
  pub audio_stream : Bool
  pub video_rtcp : Bool
  pub audio_rtcp : Bool

-- `if (client != nullptr) { call }`
abbrev pub call_when : Bool → RtspCall → List RtspCall
call_when present c = if present then c ∷ [] else []

abbrev pub add_when : Bool → (ℕ → RtspCall) → Option ℕ → List RtspCall
add_when present add none = []
add_when present add (some track) = call_when present (add track)

unfoldable pub rtsp_stop : Clients → List RtspCall
rtsp_stop s =
    call_when s.video_rtcp video_rtcp_stop
    ++ call_when s.audio_rtcp audio_rtcp_stop
    ++ call_when s.tcp_client tcp_stop
    ++ curl_stop ∷ []

unfoldable pub rtsp_add_connection : ℕ → Option ℕ → Option ℕ → Clients → List RtspCall
rtsp_add_connection ref video audio s =
    call_when s.tcp_client (tcp_set ref video audio)
    ++ add_when s.video_stream (video_add ref) video
    ++ add_when s.audio_stream (audio_add ref) audio

unfoldable pub rtsp_remove_connection : ℕ → Clients → List RtspCall
rtsp_remove_connection ref s =
    call_when s.video_stream (video_remove ref) ++ call_when s.audio_stream (audio_remove ref)
