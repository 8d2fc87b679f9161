-- ===== src/Connection/Tracks.antt =====
-- `createMediaTrack`, `handleTrackEvent`, `acceptTrack` and `createTracks` of webrtc_connection.cpp.
pub mod Unlisted
use edge_device_webrtc.Prelude.{
  ◌>>=◌, false, ◌++◌, true, text_eq, ◌∷◌, none, if◌then◌else◌, [], some, codes, Text, Option, List,
}
use edge_device_webrtc.Connection.State.{
  unknown_error, listen, add_track, ok, set_local_description, ErrorState, MediaTrack, Connection,
  called,
}
use edge_device_webrtc.Connection.Metadata.{has_error, mid_of}
use edge_device_webrtc.Json.{JsonOps}
use mathlib.Core.Option

module _ {J : Type 0} (json : JsonOps J) where
  -- The loop over the entries: the track ID of the first with the mid. `none` is an exception.
  unfoldable pub find_track_id : Text → List J → Option (Option Text)
  unfolding mid_of
  find_track_id mid [] = some none
  find_track_id mid (mt ∷ mts) =
      let later = find_track_id mid mts in
      do
        (name, touched) ← mid_of json mt
        if text_eq name mid
            then (do
              (value, after) ← json.entry (codes "trackId") touched
              Option.map some (json.get_string value))
            else later

  -- The track ID, or none where it is not found or an exception is caught, and the metadata.
  unfoldable pub listed_track : Text → J → Option Text × J
  unfolding find_track_id
  listed_track mid metadata = elim (json.entry (codes "tracks") metadata) [
    | none ↦ (none, metadata)
    | some (value, touched) ↦ elim (json.get_array value) [
      | none ↦ (none, touched)
      | some entries ↦ elim (find_track_id mid entries) [
        | some (some id) ↦ (some id, touched)
        | _ ↦ (none, touched)
      ]
    ]
  ]

  -- Without an entry the track has an empty ID and no `rtcTrack_`.
  unfoldable pub created_track : Text → Option Text → MediaTrack
  created_track mid none = record { mid = mid; track_id = []; error = ok; rtc_track = false }
  created_track mid (some id) = record { mid = mid; track_id = id; error = ok; rtc_track = true }

  unfoldable pub create_media_track : Text → Connection J → MediaTrack × Connection J
  unfolding listed_track created_track
  create_media_track mid s =
      let (id, metadata) = listed_track mid s.metadata in
      (created_track mid id, record s { metadata = metadata })

  -- What `acceptTrack` makes of the track that the callback leaves: it listens for messages, unless
  -- the callback set an error; `none` is the call through an `rtcTrack_` that is not set.
  unfoldable pub listen_to : MediaTrack → Connection J → Option (Connection J)
  unfolding called
  listen_to m s =
      if has_error m.error
      then some s
      else (if m.rtc_track then some (called (listen m) s) else none)

  -- `trackCb_`, if it is set, decides on the error of the track, which `mediaTracks_` shares.
  unfoldable pub handle_track_event :
      Option (MediaTrack → ErrorState) → Text → Connection J → Option (Connection J)
  unfolding create_media_track listen_to
  handle_track_event callback mid s =
      let (m, t) = create_media_track mid s in
      elim callback [
        | none ↦
            some (record t {
              media_tracks = t.media_tracks ++ record m { error = unknown_error } ∷ [];
            })
        | some decide ↦
            let decided = record m { error = decide m } in
            listen_to decided (record t { media_tracks = t.media_tracks ++ decided ∷ [] })
      ]

  -- One track that the device offers; `none` is an exception of `push_back`.
  unfoldable pub offer_track : MediaTrack → Connection J → Option (Connection J)
  unfolding called
  offer_track m s = do
    let entry =
        json.object
          ((codes "mid", json.string m.mid) ∷ (codes "trackId", json.string m.track_id) ∷ [])
    metadata ← json.push_entry (codes "tracks") entry s.metadata
    let attached = record m { rtc_track = true }
    let t = called (add_track m) (record s { metadata = metadata })
    some (called (listen attached) (record t { media_tracks = t.media_tracks ++ attached ∷ [] }))

  unfoldable pub offer_tracks : List MediaTrack → Connection J → Option (Connection J)
  unfolding offer_track
  offer_tracks [] s = some s
  offer_tracks (m ∷ ms) s = do t ← offer_track m s; offer_tracks ms t

  -- `createPeerConnection`, as far as the object's own state goes.
  unfoldable pub create_tracks : List MediaTrack → Connection J → Option (Connection J)
  unfolding offer_tracks called
  create_tracks ms s =
      Option.map (called set_local_description) (offer_tracks ms (record s { peer = true }))
