-- ===== src/Negotiator/Tests.antt =====
-- Runs of the negotiators of src/modules/track-negotiators, and the theorem at a concrete offer.
use mathlib.Core.Option
use edge_device_webrtc.Negotiator.Kept.{match_loop-settled, settled}
use edge_device_webrtc.Prelude.{
  some, refl, arith, ◌≡◌, ◌==◌, none, if◌then◌else◌, codes, [], Option, ◌∷◌, Text, ℕ, List,
}
use edge_device_webrtc.Negotiator.Media.{RtpMap, MediaOps, MediaLaws, unless_apt, drop_feedback}
use edge_device_webrtc.Negotiator.Match.{is_vp8, match_loop}

-- A description as a map.
abbrev Entries : Type 0
Entries = ℕ → Option RtpMap

abbrev map_media : MediaOps Entries
map_media = record {
  parse = λ t. none;
  payload_types = λ m. 96 ∷ 97 ∷ 102 ∷ 106 ∷ [];
  rtp_map = λ m q. m q;
  remove_rtp_map = λ pt m q. if q == pt then none else unless_apt pt (m q);
  remove_feedback = λ pt name m q. if q == pt then Option.map (drop_feedback name) (m q) else m q;
  add_ssrc = λ ssrc id m. m;
  generate_sdp = λ m. [];
}

own_key : (pt : ℕ) (o : Option RtpMap) → (if pt == pt then none else o) ≡ none
own_key pt o = ground arith

map_laws : MediaLaws map_media
map_laws = record {
  removed = λ pt m. own_key pt (unless_apt pt (m pt));
  others = λ pt q m h. rw h refl;
  feedback = λ pt q name m. refl;
}

abbrev entry : ℕ → Text → ℕ → List Text → List Text → RtpMap
entry pt format rate fmtps feedbacks = record {
  payload_type = pt;
  format = format;
  clock_rate = rate;
  fmtps = fmtps;
  feedbacks = feedbacks;
}

abbrev vp8 : RtpMap
vp8 = entry 96 (codes "vp8") 90000 [] (codes "nack pli" ∷ codes "ccm fir" ∷ codes "x" ∷ [])

abbrev offered : Entries
offered q =
    if q == 96
    then some vp8
    else (if q == 97
        then some (entry 97 (codes "rtx") 90000 (codes "apt=96" ∷ []) [])
        else (if q == 102
            then some (entry 102 (codes "H264") 90000 [] [])
            else (if q == 106
                then some (
                    entry 106 (codes "H264") 90000
                      (codes
                          "level-asymmetry-allowed=1;packetization-mode=1;profile-level-id=42e01f"
                        ∷ [])
                      [])
                else none)))

match_loop-settled_example :
    (match_loop map_media is_vp8 (96 ∷ 97 ∷ 102 ∷ []) none offered).0 96 ≡ settled is_vp8 (some vp8)
match_loop-settled_example =
    match_loop-settled map_media map_laws is_vp8 (96 ∷ 97 ∷ 102 ∷ []) none offered 96 refl
      (λ p. refl)
