-- ===== src/Rtp/Tests.antt =====
-- The theorems on the RTP client at concrete inputs, with packets of which the first two entries are
-- the payload type and the SSRC.
use edge_device_webrtc.Rtp.Dispatch.{run_round-deliveries, Addressed, deliveries, plain}
use edge_device_webrtc.Rtp.Running.{removes, adds, created, next, Reach-Running, Running}
use edge_device_webrtc.Rtp.Runner.{run_round}
use edge_device_webrtc.Rtp.Client.{
  done, called, receive_on, listen_on, start, send_only, remove_connection, start_if_stopped,
  new_client, add_connection, RtpTrack, RtpClient,
}
use edge_device_webrtc.Rtp.Library.{RtpHeader, RtpHeaderLaws, Repacketizer}
use edge_device_webrtc.Prelude.{
  arith, All, length, ltb, if◌then◌else◌, ◌++◌, true, some, refl, false, ◌≡◌, Bool, Text, ℕ, [],
  ◌∷◌,
}

abbrev type_of : Text → ℕ
type_of [] = 0
type_of (a ∷ p) = a

abbrev ssrc_of : Text → ℕ
ssrc_of [] = 0
ssrc_of (a ∷ []) = 0
ssrc_of (a ∷ b ∷ p) = b

abbrev with_type : ℕ → Text → Text
with_type n [] = n ∷ []
with_type n (a ∷ p) = n ∷ p

abbrev with_ssrc : ℕ → Text → Text
with_ssrc n [] = 0 ∷ n ∷ []
with_ssrc n (a ∷ []) = a ∷ n ∷ []
with_ssrc n (a ∷ b ∷ p) = a ∷ n ∷ p

abbrev content_of : Text → Text
content_of [] = []
content_of (a ∷ []) = []
content_of (a ∷ b ∷ p) = p

abbrev short_header : RtpHeader
short_header = record {
  payload_type = type_of;
  ssrc = ssrc_of;
  set_payload_type = with_type;
  set_ssrc = with_ssrc;
  content = content_of;
}

type_set : (n : ℕ) (p : Text) → type_of (with_type n p) ≡ n
type_set n [] = refl
type_set n (a ∷ p) = refl

ssrc_set_lem : (n : ℕ) (p : Text) → ssrc_of (with_ssrc n p) ≡ n
ssrc_set_lem n [] = refl
ssrc_set_lem n (a ∷ []) = refl
ssrc_set_lem n (a ∷ b ∷ p) = refl

ssrc_stays : (n : ℕ) (p : Text) → ssrc_of (with_type n p) ≡ ssrc_of p
ssrc_stays n [] = refl
ssrc_stays n (a ∷ []) = refl
ssrc_stays n (a ∷ b ∷ p) = refl

content_after_type : (n : ℕ) (p : Text) → content_of (with_type n p) ≡ content_of p
content_after_type n [] = refl
content_after_type n (a ∷ []) = refl
content_after_type n (a ∷ b ∷ p) = refl

content_after_ssrc : (n : ℕ) (p : Text) → content_of (with_ssrc n p) ≡ content_of p
content_after_ssrc n [] = refl
content_after_ssrc n (a ∷ []) = refl
content_after_ssrc n (a ∷ b ∷ p) = refl

short_header_laws : RtpHeaderLaws short_header
short_header_laws = record {
  payload_type_set = λ n p h. type_set n p;
  ssrc_set = λ n p h. ssrc_set_lem n p;
  ssrc_kept = ssrc_stays;
  content_kept_type = content_after_type;
  content_kept_ssrc = content_after_ssrc;
}

abbrev never : ℕ → Text → Bool
never track p = false

abbrev video : RtpTrack Repacketizer
video = record {
  track = 7;
  repacketizer = record { ssrc = 1234; dst_payload_type = 102 };
  ssrc = 1234;
  src_payload_type = 96;
  dst_payload_type = 102;
}

abbrev one_viewer : RtpClient Repacketizer
one_viewer = record (new_client 6000) {
  stopped = false;
  media_tracks = (1, video) ∷ [];
  socket = true;
  thread = true;
  calls = listen_on 6000 ∷ [];
}

one_viewer_added : add_connection true send_only 1 video (new_client 6000) ≡ done one_viewer
unfolding add_connection start_if_stopped start receive_on called
one_viewer_added = refl

Reach-Running_example : Running (plain short_header never) never (remove_connection 1 one_viewer)
Reach-Running_example =
    Reach-Running (plain short_header never) never 6000
      (next (next created (adds send_only 1 video one_viewer one_viewer_added)) (removes 1))

abbrev datagram : Text
datagram = 96 ∷ 1 ∷ 2 ∷ 3 ∷ 4 ∷ 5 ∷ 6 ∷ 7 ∷ 8 ∷ 9 ∷ 10 ∷ 11 ∷ 12 ∷ []

run_round-deliveries_example :
    (run_round (plain short_header never) never (some datagram) one_viewer
      ≡ some (record one_viewer {
        calls =
            listen_on 6000 ∷ []
            ++ (if ltb (length datagram) 12
                then []
                else deliveries short_header never datagram one_viewer.media_tracks);
      }))
    × All (Addressed short_header never datagram) one_viewer.media_tracks
run_round-deliveries_example =
    run_round-deliveries short_header short_header_laws never datagram one_viewer refl (omega arith)
      ((omega arith, omega arith), tt)
