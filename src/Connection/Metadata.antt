-- ===== src/Connection/Metadata.antt =====
-- `updateMetaTracks` and `trackErrorToString` of webrtc_connection.cpp.
pub mod Marks
pub mod Listed
pub mod Status
use edge_device_webrtc.Prelude.{
  ◌>>=◌, text_eq, [], ◌∷◌, ◌++◌, true, none, if◌then◌else◌, ◌||◌, some, false, codes, Text, Option,
  List, Bool,
}
use edge_device_webrtc.Json.{JsonOps}
use edge_device_webrtc.Connection.State.{
  unknown_error, invalid_codecs, unknown_track_id, access_denied, ok, MediaTrack, Connection,
  ErrorState,
}
use mathlib.Core.Option

unfoldable pub track_error_text : ErrorState → Text
track_error_text ok = codes "OK"
track_error_text access_denied = codes "ACCESS_DENIED"
track_error_text unknown_track_id = codes "UNKNOWN_TRACK_ID"
track_error_text invalid_codecs = codes "INVALID_CODECS"
track_error_text unknown_error = codes "UNKNOWN_ERROR"

abbrev pub has_error : ErrorState → Bool
has_error ok = false
has_error _ = true

module _ {J : Type 0} (json : JsonOps J) where
  -- Inserts the error of a track, if it has one.
  unfoldable pub put_error : ErrorState → J → Option J
  unfolding track_error_text
  put_error ok entry = some entry
  put_error error entry =
      json.set_entry (codes "error") (json.string (track_error_text error)) entry

  -- `mt["mid"].get<std::string>()`, and the entry after it.
  unfoldable pub mid_of : J → Option (Text × J)
  mid_of mt = do
    (value, touched) ← json.entry (codes "mid") mt
    mid ← json.get_string value
    some (mid, touched)

  -- The loop over the entries of the metadata: the entries after it, and `found`; `none` is an
  -- exception, on which the copy of the entries is dropped.
  unfoldable pub mark : Text → ErrorState → List J → Option (List J × Bool)
  unfolding mid_of put_error
  mark mid error [] = some ([], false)
  mark mid error (mt ∷ mts) =
      let later = mark mid error mts in
      do
        (name, touched) ← mid_of mt
        if text_eq name mid
            then Option.map (λ marked. (marked ∷ mts, true)) (put_error error touched)
            else Option.map (λ (rest, found). (touched ∷ rest, found)) later

  -- The entry for a track that the metadata do not have.
  unfoldable pub new_entry : MediaTrack → Option J
  unfolding put_error
  new_entry m = put_error m.error (
      json.object
        ((codes "mid", json.string m.mid) ∷ (codes "trackId", json.string m.track_id) ∷ []))

  -- What follows the loop: `hasError` counts the errors of tracks that are found.
  unfoldable pub store_marked : MediaTrack → Bool → J → List J × Bool → Option (Bool × J)
  unfolding new_entry
  store_marked m failed metadata (entries, true) =
      Option.map (λ j. (failed || has_error m.error, j))
        (json.set_entry (codes "tracks") (json.array entries) metadata)
  store_marked m failed metadata (entries, false) = do
    added ← new_entry m
    Option.map (λ j. (failed, j))
        (json.set_entry (codes "tracks") (json.array (entries ++ added ∷ [])) metadata)

  -- One track: an exception while the entries are read goes on to the next track.
  unfoldable pub update_track : MediaTrack → Bool × J → Option (Bool × J)
  unfolding mark store_marked
  update_track m (failed, metadata) = elim (json.entry (codes "tracks") metadata) [
    | none ↦ some (failed, metadata)
    | some (value, touched) ↦ elim (json.get_array value) [
      | none ↦ some (failed, touched)
      | some entries ↦ elim (mark m.mid m.error entries) [
        | none ↦ some (failed, touched)
        | some marked ↦ store_marked m failed touched marked
      ]
    ]
  ]

  unfoldable pub update_tracks : List MediaTrack → Bool × J → Option (Bool × J)
  unfolding update_track
  update_tracks [] r = some r
  update_tracks (m ∷ ms) r = do next ← update_track m r; update_tracks ms next

  -- `none` is an exception that leaves the method.
  unfoldable pub update_meta_tracks : Connection J → Option (Connection J)
  unfolding update_tracks
  update_meta_tracks s = do
    (failed, metadata) ← update_tracks s.media_tracks (false, s.metadata)
    let status = if failed then codes "FAILED" else codes "OK"
    updated ← json.set_entry (codes "status") (json.string status) metadata
    some (record s { metadata = updated })
