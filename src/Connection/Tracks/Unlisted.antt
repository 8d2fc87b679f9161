-- ===== src/Connection/Tracks/Unlisted.antt =====
-- Tracks that the metadata do not list, in `handleTrackEvent` (webrtc_connection.cpp).
use edge_device_webrtc.Connection.Metadata.{has_error}
use edge_device_webrtc.Connection.State.{ok, ErrorState, MediaTrack, Connection}
use edge_device_webrtc.Prelude.{
  if◌then◌else◌, inr, arith, inl, text_eq, ◌++◌, Bool-cases, ◌∙◌, ap, sym, ◌∷◌, refl, none, [],
  some, false, ◌≡◌, List, Text,
}
use edge_device_webrtc.Connection.Tracks.{
  created_track, listen_to, create_media_track, handle_track_event, listed_track, find_track_id,
}
use edge_device_webrtc.Json.{JsonLaws, JsonOps}
use edge_device_webrtc.Connection.Metadata.Marks.{mids, member, mids-step}
use edge_device_webrtc.Connection.Metadata.Listed.{Listed, Listed-parts}

-- The track that `createMediaTrack` makes without an entry.
abbrev pub nameless : Text → MediaTrack
nameless mid = record { mid = mid; track_id = []; error = ok; rtc_track = false }

module _ {J : Type 0} (json : JsonOps J) (laws : JsonLaws json) where
  find_track_id-none :
      (mid : Text) (es : List J) (ns : List Text)
      → mids json es ≡ some ns
      → member mid ns ≡ false
      → find_track_id json mid es ≡ some none
  unfolding find_track_id
  find_track_id-none mid [] ns h out = refl
  find_track_id-none mid (e ∷ es) ns h out =
      let (name, touched, names, named, later, split) = mids-step json laws e es ns h in
      let apart : member mid (name ∷ names) ≡ false = sym (ap (member mid) split) ∙ out in
      elim (Bool-cases (text_eq name mid)) [
        | inl same ↦ absurd (ground arith)
        | inr other ↦ rw (named, other) (find_track_id-none mid es names later (ground arith))
      ]

  listed_track-none :
      (mid : Text) (metadata : J) (ns : List Text)
      → Listed json metadata ns
      → member mid ns ≡ false
      → (touched : J) × (listed_track json mid metadata ≡ (none, touched))
  unfolding listed_track
  listed_track-none mid metadata ns listed out =
      let (value, touched, entries, opened, array, names) =
        Listed-parts json laws metadata ns listed in
      (touched, rw (opened, listed_track, array, find_track_id-none mid entries ns names out) refl)

  -- A track whose mid is not in the metadata gets an empty track ID. If the application's callback
  -- sets an error on it, the track is kept with that error and nothing is called; if the callback
  -- leaves it without an error, the handler calls through the track's `rtcTrack_`, which is not
  -- set.
  pub unlisted_track :
      (mid : Text) (s : Connection J) (ns : List Text) (decide : MediaTrack → ErrorState)
      → Listed json s.metadata ns
      → member mid ns ≡ false
      → (touched : J) × (handle_track_event json (some decide) mid s ≡ (
          if has_error (decide (nameless mid))
          then some (record s {
            metadata = touched;
            media_tracks =
                s.media_tracks ++ record (nameless mid) { error = decide (nameless mid) } ∷ [];
          })
          else none))
  unfolding handle_track_event create_media_track listen_to created_track
  unlisted_track mid s ns decide listed out =
      let (touched, missing) = listed_track-none mid s.metadata ns listed out in
      (touched, rw missing refl)
