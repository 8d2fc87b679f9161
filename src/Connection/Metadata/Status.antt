-- ===== src/Connection/Metadata/Status.antt =====
-- What `updateMetaTracks` (webrtc_connection.cpp) does to the metadata, for a client that reads the
-- mids of the tracks and the status.
use edge_device_webrtc.Connection.Metadata.Listed.{update_track-Listed, Listed-parts, note, Listed}
use edge_device_webrtc.Prelude.{
  ap, sym, true, text_eq, refl, ◌||◌, ◌&&◌, some, false, [], ◌≡◌, ◌∷◌, if◌then◌else◌, codes, Bool,
  Text, List,
}
use edge_device_webrtc.Json.{JsonLaws, JsonOps}
use edge_device_webrtc.Connection.State.{Connection, MediaTrack}
use edge_device_webrtc.Connection.Metadata.{update_tracks, update_meta_tracks, has_error}
use edge_device_webrtc.Connection.Metadata.Marks.{member, tracks_of}

-- The mids after all tracks are noted.
unfoldable pub noted : List MediaTrack → List Text → List Text
unfolding note
noted [] ns = ns
noted (m ∷ ms) ns = noted ms (note m ns)

-- Whether a track fails: it has an error, and its mid is listed when its turn comes.
unfoldable pub fails : List MediaTrack → List Text → Bool
unfolding note
fails [] ns = false
fails (m ∷ ms) ns = has_error m.error && member m.mid ns || fails ms (note m ns)

module _ {J : Type 0} (json : JsonOps J) where
  abbrev pub Status : J → Text → Type 0
  Status metadata status =
      (after : J) × (json.entry (codes "status") metadata ≡ some (json.string status, after))

module _ {J : Type 0} (json : JsonOps J) (laws : JsonLaws json) where
  no_more : (failed : Bool) → failed || false ≡ failed
  no_more true = refl
  no_more false = refl

  or_lem : (a b c : Bool) → (a || b) || c ≡ a || (b || c)
  or_lem true b c = refl
  or_lem false b c = refl

  update_tracks-Listed :
      (ms : List MediaTrack) (failed : Bool) (metadata : J) (ns : List Text)
      → Listed json metadata ns
      → (after : J) × (update_tracks json ms (failed, metadata)
          ≡ some (failed || fails ms ns, after))
        × Listed json after (noted ms ns)
  unfolding update_tracks noted fails
  update_tracks-Listed [] failed metadata ns listed =
      (metadata, ap (λ b. some (b, metadata)) (sym (no_more failed)), listed)
  update_tracks-Listed (m ∷ ms) failed metadata ns listed =
      let fault = has_error m.error && member m.mid ns in
      let (middle, first, seen) = update_track-Listed json laws m failed metadata ns listed in
      let (after, rest, last) = update_tracks-Listed ms (failed || fault) middle (note m ns) seen in
      (after, rw (first, rest) (rw (or_lem failed fault (fails ms (note m ns))) refl), last)

  tracks_not_status : text_eq (codes "tracks") (codes "status") ≡ false
  unfolding text_eq
  tracks_not_status = refl

  set_entry-Listed :
      (metadata : J) (ns : List Text) (status : Text)
      → Listed json metadata ns
      → (after : J) × (json.set_entry (codes "status") (json.string status) metadata ≡ some after)
        × Listed json after ns
        × Status json after status
  unfolding tracks_of
  set_entry-Listed metadata ns status listed =
      let (value, touched, entries, opened, array, names) =
        Listed-parts json laws metadata ns listed in
      let (after, set) =
        laws.set_defined (codes "status") (codes "tracks") metadata (json.string status) value
          touched opened in
      let (again, tracks) =
        laws.read_other (codes "status") (codes "tracks") metadata (json.string status) after value
          touched tracks_not_status set opened in
      let written = laws.read_written (codes "status") metadata (json.string status) after set in
      (after, set, (entries, rw (tracks, array) refl, names), written)

  -- On metadata whose `tracks` is an array of entries with a mid each, `updateMetaTracks` gives
  -- metadata whose entries have the same mids in the same order, followed by the mids of the media
  -- tracks that were not among them, each once. The `status` is "FAILED" if a media track with an
  -- error has a mid that the metadata have when its turn comes, "OK" otherwise. Nothing else of the
  -- connection changes.
  pub update_meta_tracks-Listed :
      (s : Connection J) (ns : List Text)
      → Listed json s.metadata ns
      → (updated : J) × (update_meta_tracks json s ≡ some (record s { metadata = updated }))
        × Listed json updated (noted s.media_tracks ns)
        × Status json updated (if fails s.media_tracks ns then codes "FAILED" else codes "OK")
  unfolding update_meta_tracks
  update_meta_tracks-Listed s ns listed =
      let (middle, marked, seen) = update_tracks-Listed s.media_tracks false s.metadata ns listed in
      let (updated, set, last, status) =
        set_entry-Listed middle (noted s.media_tracks ns)
          (if fails s.media_tracks ns then codes "FAILED" else codes "OK") seen in
      (updated, rw (marked, set) refl, last, status)
