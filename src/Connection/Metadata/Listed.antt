-- ===== src/Connection/Metadata/Listed.antt =====
-- One track in `updateMetaTracks` (webrtc_connection.cpp): the mids of the entries before and after
-- it, and `hasError`.
use edge_device_webrtc.Prelude.{
  sym, ◌∙◌, true, >>=-eq-some, inr, inl, text_eq, Bool-cases, refl, ◌||◌, ◌&&◌, ◌++◌, some, false,
  [], ◌≡◌, ◌∷◌, if◌then◌else◌, codes, Bool, Text, List,
}
use edge_device_webrtc.Json.{JsonLaws, JsonOps}
use edge_device_webrtc.Connection.State.{ErrorState, MediaTrack}
use edge_device_webrtc.Connection.Metadata.{store_marked, update_track, has_error, new_entry, mark}
use edge_device_webrtc.Connection.Metadata.Marks.{
  Named-again, mids-cons, Named-intro, put_error-Named, mids-step, Named, member, tracks_of, mids,
}

-- The mids after a track is noted.
unfoldable pub note : MediaTrack → List Text → List Text
note m ns = if member m.mid ns then ns else ns ++ m.mid ∷ []

module _ {J : Type 0} (json : JsonOps J) where
  -- Metadata with entries of these mids.
  abbrev pub Listed : J → List Text → Type 0
  Listed metadata ns =
      (entries : List J) × (tracks_of json metadata ≡ some entries) × (mids json entries ≡ some ns)

module _ {J : Type 0} (json : JsonOps J) (laws : JsonLaws json) where
  mark-mids :
      (mid : Text) (error : ErrorState) (es : List J) (ns : List Text)
      → mids json es ≡ some ns
      → (marked : List J) × (mark json mid error es ≡ some (marked, member mid ns))
        × (mids json marked ≡ some ns)
  unfolding mark mids
  mark-mids mid error [] ns h = let same : ns ≡ [] = cc in ([], rw (same, mark) refl, h)
  mark-mids mid error (e ∷ es) ns h =
      let (name, touched, names, named, later, split) = mids-step json laws e es ns h in
      let (rest, found, kept) = mark-mids mid error es names later in
      let (marked, again, put, stays) =
        put_error-Named json laws error touched name touched
          (Named-again json laws e name touched named) in
      elim (Bool-cases (text_eq name mid)) [
        | inl eq ↦ (
          marked ∷ es,
          rw (split, named, put, eq, mark) refl,
          rw split (mids-cons json laws marked es name names again stays later),
        )
        | inr ne ↦ (
          touched ∷ rest,
          rw (split, named, found, ne, mark) refl,
          rw split (
              mids-cons json laws touched rest name names touched
                (Named-again json laws e name touched named) kept),
        )
      ]

  new_entry-Named :
      (m : MediaTrack)
      → (added : J) × (touched : J) × (new_entry json m ≡ some added)
        × Named json laws added m.mid touched
  unfolding new_entry text_eq
  new_entry-Named m =
      let fields =
        (codes "mid", json.string m.mid) ∷ (codes "trackId", json.string m.track_id) ∷ [] in
      let (after, opened) = laws.object_entry (codes "mid") (json.string m.mid) fields refl in
      put_error-Named json laws m.error (json.object fields) m.mid after (
        Named-intro json laws (json.object fields) m.mid (json.string m.mid) after opened
          (laws.string_back m.mid))

  mids-append :
      (es : List J) (ns : List Text) (e : J) (name : Text) (touched : J)
      → mids json es ≡ some ns
      → Named json laws e name touched
      → mids json (es ++ e ∷ []) ≡ some (ns ++ name ∷ [])
  unfolding mids
  mids-append [] ns e name touched h named = let same : ns ≡ [] = cc in rw (same, named) refl
  mids-append (d ∷ es) ns e name touched h named =
      let (first, after, names, opened, later, split) = mids-step json laws d es ns h in
      rw split (
        mids-cons json laws d (es ++ e ∷ []) first (names ++ name ∷ []) after opened
          (mids-append es names e name touched later named))

  pub Listed-parts :
      (metadata : J) (ns : List Text)
      → Listed json metadata ns
      → (value : J) × (touched : J) × (entries : List J) × (json.entry (codes "tracks") metadata
          ≡ some (value, touched))
        × (json.get_array value ≡ some entries)
        × (mids json entries ≡ some ns)
  unfolding tracks_of
  Listed-parts metadata ns (entries, listed, names) =
      let ((value, touched), opened, array) =
        >>=-eq-some (json.entry (codes "tracks") metadata)
          (λ (value, touched). json.get_array value) entries listed in
      (value, touched, entries, opened, array, names)

  -- Entries that are written to metadata which have entries are listed.
  store-Listed :
      (metadata value touched : J) (entries : List J) (ns : List Text)
      → json.entry (codes "tracks") metadata ≡ some (value, touched)
      → mids json entries ≡ some ns
      → (after : J) × (json.set_entry (codes "tracks") (json.array entries) touched ≡ some after)
        × Listed json after ns
  unfolding tracks_of
  store-Listed metadata value touched entries ns opened names =
      let again = laws.read_again (codes "tracks") metadata value touched opened in
      let (after, set) =
        laws.set_defined (codes "tracks") (codes "tracks") touched (json.array entries) value
          touched again in
      let (last, read) =
        laws.read_written (codes "tracks") touched (json.array entries) after set in
      (after, set, (entries, rw (read, laws.array_back entries) refl, names))

  update_track-store_marked :
      (m : MediaTrack) (failed : Bool) (metadata value touched : J) (entries : List J)
      (marked : List J × Bool)
      → json.entry (codes "tracks") metadata ≡ some (value, touched)
      → json.get_array value ≡ some entries
      → mark json m.mid m.error entries ≡ some marked
      → update_track json m (failed, metadata) ≡ store_marked json m failed touched marked
  unfolding update_track
  update_track-store_marked m failed metadata value touched entries marked h k l =
      rw (h, update_track, k, l) refl

  listed_error : (failed error : Bool) → failed || error ≡ failed || error && true
  listed_error failed true = refl
  listed_error failed false = refl

  new_error : (failed error : Bool) → failed ≡ failed || error && false
  new_error true error = refl
  new_error false true = refl
  new_error false false = refl

  store_marked-found :
      (m : MediaTrack) (failed : Bool) (metadata after : J) (entries : List J)
      → json.set_entry (codes "tracks") (json.array entries) metadata ≡ some after
      → store_marked json m failed metadata (entries, true)
        ≡ some (failed || has_error m.error && true, after)
  unfolding store_marked
  store_marked-found m failed metadata after entries h =
      rw (h, listed_error failed (has_error m.error)) refl

  store_marked-new :
      (m : MediaTrack) (failed : Bool) (metadata added after : J) (entries : List J)
      → new_entry json m ≡ some added
      → json.set_entry (codes "tracks") (json.array (entries ++ added ∷ [])) metadata ≡ some after
      → store_marked json m failed metadata (entries, false)
        ≡ some (failed || has_error m.error && false, after)
  unfolding store_marked
  store_marked-new m failed metadata added after entries h k =
      rw (h, k, sym (new_error failed (has_error m.error))) refl

  -- A track that is noted: the metadata list its mid, and `hasError` is set for a listed track
  -- with an error.
  pub update_track-Listed :
      (m : MediaTrack) (failed : Bool) (metadata : J) (ns : List Text)
      → Listed json metadata ns
      → (after : J) × (update_track json m (failed, metadata)
          ≡ some (failed || has_error m.error && member m.mid ns, after))
        × Listed json after (note m ns)
  unfolding update_track store_marked note
  update_track-Listed m failed metadata ns listed =
      let (value, touched, entries, opened, array, names) = Listed-parts metadata ns listed in
      let (marked, found, kept) = mark-mids m.mid m.error entries ns names in
      let (added, last, made, named) = new_entry-Named m in
      elim (Bool-cases (member m.mid ns)) [
        | inl old ↦
            let (after, set, stored) = store-Listed metadata value touched marked ns opened kept in
            (
              after,
              (update_track-store_marked m failed metadata value touched entries
                    (marked, member m.mid ns) opened array found
                  ∙ rw old (store_marked-found m failed touched after marked set)),
              rw old stored,
            )
        | inr new ↦
            let (after, set, stored) =
              store-Listed metadata value touched (marked ++ added ∷ []) (ns ++ m.mid ∷ []) opened
                (mids-append marked ns added m.mid last kept named) in
            (
              after,
              (update_track-store_marked m failed metadata value touched entries
                    (marked, member m.mid ns) opened array found
                  ∙ rw new (store_marked-new m failed touched added after marked made set)),
              rw new stored,
            )
      ]
