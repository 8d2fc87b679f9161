-- ===== src/Negotiator/Media.antt =====
-- `rtc::Description::Media` of libdatachannel as an interface: its operations are arguments of the
-- definitions that use them, and what they promise is a record of laws.
use mathlib.Core.Option
use edge_device_webrtc.Rtsp.Strings.{decimal}
use edge_device_webrtc.Prelude.{
  [], ◌||◌, ◌++◌, find, text_eq, is_some, codes, ◌∷◌, if◌then◌else◌, Bool, some, false, ◌==◌, none,
  ◌≡◌, Option, List, ℕ, Text,
}

-- The fields of an `RtpMap` that the negotiators read or change.
pub record RtpMap : Type 0 where
  pub payload_type : ℕ
  pub format : Text
  pub clock_rate : ℕ
  pub fmtps : List Text
  pub feedbacks : List Text

pub record MediaOps (M : Type 0) : Type 0 where
  -- The constructor; `none` is an exception.
  pub parse : Text → Option M
  pub payload_types : M → List ℕ
  -- `none` is the exception for an unknown payload type.
  pub rtp_map : M → ℕ → Option RtpMap
  pub remove_rtp_map : ℕ → M → M
  -- `rtpMap(pt)->removeFeedback(name)`.
  pub remove_feedback : ℕ → Text → M → M
  pub add_ssrc : ℕ → Text → M → M
  pub generate_sdp : M → Text

abbrev without_text : Text → List Text → List Text
without_text name [] = []
without_text name (f ∷ fs) =
    let rest = without_text name fs in if is_some (find name f) then rest else f ∷ rest

-- An entry without the feedback lines that a name is found in.
abbrev pub drop_feedback : Text → RtpMap → RtpMap
drop_feedback name r = record r { feedbacks = without_text name r.feedbacks }

abbrev has_line : Text → List Text → Bool
has_line line [] = false
has_line line (f ∷ fs) = text_eq f line || has_line line fs

-- The entry, unless it is for the retransmission of payload type `pt`.
abbrev pub unless_apt : ℕ → Option RtpMap → Option RtpMap
unless_apt pt none = none
unless_apt pt (some r) = if has_line (codes "apt=" ++ decimal pt) r.fmtps then none else some r

-- A media description is a map from payload types to entries; with a payload type goes the entry for
-- its retransmission.
pub record MediaLaws {M : Type 0} (ops : MediaOps M) : Type 0 where
  pub removed : (pt : ℕ) (m : M) → ops.rtp_map (ops.remove_rtp_map pt m) pt ≡ none
  pub others :
      (pt q : ℕ) (m : M)
      → (q == pt) ≡ false
      → ops.rtp_map (ops.remove_rtp_map pt m) q ≡ unless_apt pt (ops.rtp_map m q)
  pub feedback :
      (pt q : ℕ) (name : Text) (m : M)
      → ops.rtp_map (ops.remove_feedback pt name m) q
        ≡ (if q == pt then Option.map (drop_feedback name) (ops.rtp_map m q) else ops.rtp_map m q)
