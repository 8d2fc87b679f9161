-- ===== src/Rtsp/Sdp.antt =====
-- `parseSdpDescription` and `parseControlAttribute` of src/modules/rtsp-client/rtsp_client.cpp.
use edge_device_webrtc.Rtsp.Client.{Client}
use edge_device_webrtc.Prelude.{
  false, true, Bool, ◌++◌, ◌==◌, none, get_or, ◌||◌, codes, text_eq, starts_with, is_empty, some,
  if◌then◌else◌, [], ◌∷◌, drop, Option, ℕ, Text, List,
}

-- What the code reads of a parsed `rtc::Description`; an entry of `media` is `none` where it is an
-- application section.
pub record MediaSection : Type 0 where
  pub type_ : Text
  pub attributes : List Text
  pub payload_types : List ℕ

pub record Description : Type 0 where
  pub attributes : List Text
  pub media : List (Option MediaSection)

-- An attribute that starts with `control:`, against the base URL.
unfoldable pub parse_control : Text → Text → Text
parse_control base att =
    let url = drop 8 att in
    if is_empty url || get_or url 0 0 == b'*'
    then base
    else (if starts_with (codes "rtsp://") url then url else base ++ url)

-- The loops over attributes: the last `control:` counts.
unfoldable pub control_of : Text → List Text → Text → Text
unfolding parse_control
control_of base [] found = found
control_of base (a ∷ atts) found =
    control_of base atts (if starts_with (codes "control:") a then parse_control base a else found)

unfoldable pub first_payload_type : List ℕ → ℕ → ℕ
first_payload_type [] default_ = default_
first_payload_type (pt ∷ pts) default_ = pt

-- What is taken of a description, or the client as it is when an exception leaves the function.
pub data Taken (E : Type 0) : Type 0 where
  taken thrown : Client E → Taken E

-- What the two negotiators do that the code uses: `payloadType()`, and whether `match` of a track
-- with the SDP of a section throws. What `match` returns is only logged.
pub record Negotiators : Type 0 where
  pub video_default : ℕ
  pub audio_default : ℕ
  pub video_throws : MediaSection → Bool
  pub audio_throws : MediaSection → Bool

module _ {E : Type 0} (nego : Negotiators) where
  abbrev pub matched : Bool → Client E → Taken E
  matched true s = thrown s
  matched false s = taken s

  unfoldable pub take_media : Client E → Option MediaSection → Taken E
  unfolding control_of first_payload_type
  take_media s none = taken s
  take_media s (some m) =
      let url = control_of s.content_base m.attributes [] in
      if text_eq m.type_ (codes "video")
      then matched (nego.video_throws m) (record s {
        video_url = url;
        video_pt = first_payload_type m.payload_types nego.video_default;
      })
      else (if text_eq m.type_ (codes "audio")
          then matched (nego.audio_throws m) (record s {
            audio_url = url;
            audio_pt = first_payload_type m.payload_types nego.audio_default;
          })
          else taken s)

  -- The loop, from what was taken of the sections before.
  unfoldable pub take_all_media : List (Option MediaSection) → Taken E → Taken E
  unfolding take_media
  take_all_media ms (thrown s) = thrown s
  take_all_media [] (taken s) = taken s
  take_all_media (m ∷ ms) (taken s) = take_all_media ms (take_media s m)

  unfoldable pub parse_sdp : Description → Client E → Taken E
  unfolding control_of take_all_media
  parse_sdp desc s =
      let url = control_of s.content_base desc.attributes s.session_url in
      take_all_media desc.media
        (taken (record s { session_url = if is_empty url then s.content_base else url }))
