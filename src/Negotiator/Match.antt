-- ===== src/Negotiator/Match.antt =====
-- `match` of the four negotiators: opus.cpp, pcmu.cpp, vp8.cpp and h264.cpp.
use mathlib.Core.Option
use edge_device_webrtc.Prelude.{
  true, find, ◌==◌, none, is_some, ◌∷◌, ◌||◌, ◌&&◌, some, false, text_eq, codes, [], Text, Option,
  ℕ, List, Bool,
}
use edge_device_webrtc.Negotiator.Media.{RtpMap, MediaOps}

unfoldable pub is_opus : RtpMap → Bool
is_opus r =
    (text_eq r.format (codes "opus") || text_eq r.format (codes "OPUS")) && r.clock_rate == 48000

unfoldable pub is_pcmu : RtpMap → Bool
is_pcmu r = text_eq r.format (codes "pcmu") && r.clock_rate == 8000

unfoldable pub is_vp8 : RtpMap → Bool
is_vp8 r = text_eq r.format (codes "vp8") && r.clock_rate == 90000

unfoldable pub is_h264 : RtpMap → Bool
is_h264 r = text_eq r.format (codes "H264") && r.clock_rate == 90000

-- The three parameters are looked for in the first `fmtp` line.
unfoldable pub is_perfect : RtpMap → Bool
is_perfect r = elim r.fmtps [
  | [] ↦ false
  | fmtp ∷ rest ↦
      is_some (find (codes "profile-level-id=42e01f") fmtp)
      && is_some (find (codes "level-asymmetry-allowed=1") fmtp)
      && is_some (find (codes "packetization-mode=1") fmtp)
]

module _ {M : Type 0} (ops : MediaOps M) where
  unfoldable pub without_feedback : ℕ → M → M
  without_feedback pt m = ops.remove_feedback pt (codes "ccm fir") (
      ops.remove_feedback pt (codes "transport-cc")
        (ops.remove_feedback pt (codes "goog-remb") (ops.remove_feedback pt (codes "nack") m)))

  -- The loop of the opus, pcmu and vp8 negotiators, which differ in the test. The second argument is
  -- `rtp`, by the payload type that it is for.
  unfoldable pub match_loop : (RtpMap → Bool) → List ℕ → Option ℕ → M → M × Option ℕ
  unfolding without_feedback
  match_loop test [] rtp m = (m, rtp)
  match_loop test (pt ∷ pts) rtp m = elim (ops.rtp_map m pt) [
    | none ↦ match_loop test pts rtp m
    | some r ↦ elim (test r) [
      | true ↦ match_loop test pts (some r.payload_type) (without_feedback pt m)
      | false ↦ match_loop test pts rtp (ops.remove_rtp_map pt m)
    ]
  ]

  -- The loop of the h264 negotiator. It keeps the first entry that is H264, until a later one has
  -- all of the wanted parameters.
  unfoldable pub h264_loop : List ℕ → Option ℕ → M → M × Option ℕ
  unfolding without_feedback
  h264_loop [] rtp m = (m, rtp)
  h264_loop (pt ∷ pts) rtp m = elim (ops.rtp_map m pt) [
    | none ↦ h264_loop pts rtp m
    | some r ↦ elim (is_h264 r) [
      | false ↦ h264_loop pts rtp (ops.remove_rtp_map pt m)
      | true ↦ elim rtp [
        | none ↦ h264_loop pts (some r.payload_type) (without_feedback pt m)
        | some old ↦ elim (is_perfect r) [
          | true ↦
              h264_loop pts (some r.payload_type) (without_feedback pt (ops.remove_rtp_map old m))
          | false ↦ h264_loop pts (some old) (ops.remove_rtp_map pt m)
        ]
      ]
    ]
  ]

  -- What follows the loop: the new SDP of the track, where an entry was found, and the result.
  unfoldable pub conclude : ℕ → Text → M × Option ℕ → Option Text × ℕ
  conclude ssrc track_id (m, none) = (none, 0)
  conclude ssrc track_id (m, some pt) = (some (ops.generate_sdp (ops.add_ssrc ssrc track_id m)), pt)

  -- `match` of a negotiator that runs `loop`; `none` is the exception of the constructor.
  unfoldable pub match_track :
      (List ℕ → Option ℕ → M → M × Option ℕ) → ℕ → Text → Text → Option (Option Text × ℕ)
  unfolding conclude
  match_track loop ssrc track_id sdp =
      Option.map (λ m. conclude ssrc track_id (loop (ops.payload_types m) none m)) (ops.parse sdp)
