-- ===== src/Connection/Metadata/Marks.antt =====
-- The entries that the loop of `updateMetaTracks` (webrtc_connection.cpp) leaves, by their mids.
use edge_device_webrtc.Connection.State.{
  unknown_error, invalid_codecs, unknown_track_id, access_denied, ok, ErrorState,
}
use edge_device_webrtc.Connection.Metadata.{put_error, mid_of}
use edge_device_webrtc.Prelude.{
  sym, >>=-eq-some, ◌||◌, refl, text_eq, [], ◌∷◌, false, codes, ◌≡◌, ◌>>=◌, some, Bool, Option,
  List, Text,
}
use edge_device_webrtc.Json.{JsonLaws, JsonOps}

abbrev pub member : Text → List Text → Bool
member t [] = false
member t (n ∷ ns) = text_eq n t || member t ns

module _ {J : Type 0} (json : JsonOps J) where
  -- The mids of the entries, if each has one that can be read.
  unfoldable pub mids : List J → Option (List Text)
  unfolding mid_of
  mids [] = some []
  mids (e ∷ es) =
      let later = mids es in do (name, touched) ← mid_of json e; names ← later; some (name ∷ names)

  -- The entries of the metadata's `tracks`.
  unfoldable pub tracks_of : J → Option (List J)
  tracks_of metadata = do
    (value, touched) ← json.entry (codes "tracks") metadata
    json.get_array value

module _ {J : Type 0} (json : JsonOps J) (laws : JsonLaws json) where
  -- An entry whose mid is `name`, and what is left after it is read.
  abbrev pub Named : J → Text → J → Type 0
  Named e name touched = mid_of json e ≡ some (name, touched)

  pub mids-cons :
      (e : J) (es : List J) (name : Text) (names : List Text) (touched : J)
      → Named e name touched
      → mids json es ≡ some names
      → mids json (e ∷ es) ≡ some (name ∷ names)
  unfolding mids
  mids-cons e es name names touched h k = rw (h, k, mids) refl

  pub Named-parts :
      (e : J) (name : Text) (touched : J)
      → Named e name touched
      → (value : J) × (json.entry (codes "mid") e ≡ some (value, touched))
        × (json.get_string value ≡ some name)
  unfolding mid_of
  Named-parts e name touched h =
      let ((value, after), opened, read) =
        >>=-eq-some (json.entry (codes "mid") e)
          (λ (value, after). json.get_string value >>= λ mid. some (mid, after)) (name, touched)
          h in
      let (mid, text, same) =
        >>=-eq-some (json.get_string value) (λ mid. some (mid, after)) (name, touched) read in
      let p : (mid ≡ name) × (after ≡ touched) = (cc, cc) in
      (value, rw (sym p.1) opened, rw (sym p.0) text)

  pub Named-intro :
      (e : J) (name : Text) (value touched : J)
      → json.entry (codes "mid") e ≡ some (value, touched)
      → json.get_string value ≡ some name
      → Named e name touched
  unfolding mid_of
  Named-intro e name value touched h k = rw (h, k) refl

  pub Named-again :
      (e : J) (name : Text) (touched : J) → Named e name touched → Named touched name touched
  Named-again e name touched h =
      let (value, opened, text) = Named-parts e name touched h in
      Named-intro touched name value touched (laws.read_again (codes "mid") e value touched opened)
        text

  not_error : text_eq (codes "mid") (codes "error") ≡ false
  unfolding text_eq
  not_error = refl

  -- An error can be put into an entry with a mid, and the mid stays.
  set_error-Named :
      (error : J) (e : J) (name : Text) (touched : J)
      → Named e name touched
      → (marked : J) × (again : J) × (json.set_entry (codes "error") error e ≡ some marked)
        × Named marked name again
  set_error-Named error e name touched h =
      let (value, opened, text) = Named-parts e name touched h in
      let (marked, set) =
        laws.set_defined (codes "error") (codes "mid") e error value touched opened in
      let (again, read) =
        laws.read_other (codes "error") (codes "mid") e error marked value touched not_error set
          opened in
      (marked, again, set, Named-intro marked name value again read text)

  pub put_error-Named :
      (error : ErrorState) (e : J) (name : Text) (touched : J)
      → Named e name touched
      → (marked : J) × (again : J) × (put_error json error e ≡ some marked)
        × Named marked name again
  unfolding put_error
  put_error-Named ok e name touched h = (e, touched, refl, h)
  put_error-Named access_denied e name touched h = set_error-Named _ e name touched h
  put_error-Named unknown_track_id e name touched h = set_error-Named _ e name touched h
  put_error-Named invalid_codecs e name touched h = set_error-Named _ e name touched h
  put_error-Named unknown_error e name touched h = set_error-Named _ e name touched h

  pub mids-step :
      (e : J) (es : List J) (ns : List Text)
      → mids json (e ∷ es) ≡ some ns
      → (name : Text) × (touched : J) × (names : List Text) × Named e name touched
        × (mids json es ≡ some names)
        × (ns ≡ name ∷ names)
  unfolding mids
  mids-step e es ns h =
      let ((name, touched), named, after) =
        >>=-eq-some (mid_of json e)
          (λ (name, touched). mids json es >>= λ names. some (name ∷ names)) ns h in
      let (names, later, same) =
        >>=-eq-some (mids json es) (λ names. some (name ∷ names)) ns after in
      (name, touched, names, named, later, cc)
