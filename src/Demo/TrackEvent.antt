-- ===== src/Demo/TrackEvent.antt =====
-- The callback for track events in examples/webrtc-demo/main.cpp.
pub mod Decision
use edge_device_webrtc.Prelude.{
  [], ◌>>=◌, true, false, ◌+◌, is_empty, ◌∷◌, none, not, some, if◌then◌else◌, ℕ, Option, Text, List,
  Bool,
}
use edge_device_webrtc.Demo.Streams.{MediaStream}
use edge_device_webrtc.Connection.State.{
  invalid_codecs, unknown_track_id, access_denied, ok, ErrorState,
}

-- What the callback leaves: the streams, the track with its error, and the place of the stream that
-- the close callback removes the connection from.
pub record Handled (S T : Type 0) : Type 0 where
  pub medias : List S
  pub track : T
  pub error : ErrorState
  pub closes : Option ℕ

module _ {S T : Type 0} (stream : MediaStream S T) where
  -- The loop over the streams, of which the first stands at place `i`: `found` and `closes` are
  -- what the rounds before have left.
  unfoldable pub offer_to_streams :
      Text → ℕ → ℕ → T → Bool → Option ℕ → List S → Option (Handled S T)
  offer_to_streams feed ref i t found closes [] = some (record {
    medias = [];
    track = t;
    error = if found then ok else unknown_track_id;
    closes = closes;
  })
  offer_to_streams feed ref i t found closes (m ∷ ms) =
      let (matched, u) = stream.match_media t m in
      let added = stream.add_connection ref u m in
      let later = offer_to_streams feed ref (i + 1) u true (some i) ms in
      let passed = offer_to_streams feed ref (i + 1) t found closes ms in
      if stream.is_track feed m
      then (if matched
          then (do n ← added; h ← later; some (record h { medias = n ∷ h.medias }))
          else some
              (record { medias = m ∷ ms; track = u; error = invalid_codecs; closes = closes }))
      else (do h ← passed; some (record h { medias = m ∷ h.medias }))

  -- `allowed` is the answer of the IAM module for "Webrtc:VideoStream".
  unfoldable pub handle_track : Bool → ℕ → T → List S → Option (Handled S T)
  unfolding offer_to_streams
  handle_track allowed ref t ms =
      if not allowed
      then some (record { medias = ms; track = t; error = access_denied; closes = none })
      else (if is_empty (stream.track_id t)
          then some (record { medias = ms; track = t; error = unknown_track_id; closes = none })
          else offer_to_streams (stream.track_id t) ref 0 t false none ms)
