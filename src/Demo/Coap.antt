-- ===== src/Demo/Coap.antt =====
-- The CoAP handlers of the demo program (examples/webrtc-demo/main.cpp and nabto_device.cpp): what
-- they answer through the Nabto SDK, whose requests and connections are arguments.
pub mod Created
use edge_device_webrtc.Json.{JsonOps}
use mathlib.Core.Option
use edge_device_webrtc.Demo.Streams.{MediaStream}
use edge_device_webrtc.Listeners.{request_free, response, refusal, RequestCall}
use edge_device_webrtc.Prelude.{
  ◌++◌, ◌||◌, ◌∷◌, ◌==◌, true, codes, [], ◌>>=◌, some, none, if◌then◌else◌, false, Text, Option,
  Bool, List, ℕ,
}

-- A request as the SDK gives it to a handler; `none` stands for an error of the SDK.
pub record Request : Type 0 where
  pub connection : ℕ
  pub content_format : Option ℕ
  pub payload : Option Text

-- NABTO_DEVICE_COAP_CONTENT_FORMAT_APPLICATION_JSON
abbrev pub application_json : ℕ
application_json = 50

abbrev pub is_some_format : ℕ → Option ℕ → Bool
is_some_format f none = false
is_some_format f (some c) = c == f

-- What a handler of track requests leaves: the streams, the tracks it has given to the connection,
-- and its calls on the request.
pub record TracksOutcome (S T : Type 0) : Type 0 where
  pub medias : List S
  pub added : Option (List T)
  pub calls : List RequestCall

-- What the loops over the streams leave: the streams and the tracks made.
pub record Made (S T : Type 0) : Type 0 where
  pub medias : List S
  pub found : Bool
  pub tracks : List T

-- `get<std::vector<std::string>>` of an array.
abbrev pub all_strings : {J : Type 0} → JsonOps J → List J → Option (List Text)
all_strings json [] = some []
all_strings json (j ∷ js) = do t ← json.get_string j; ts ← all_strings json js; some (t ∷ ts)

module _ {S T : Type 0} (stream : MediaStream S T) where
  -- A round of the inner loop: the track of one feed.
  unfoldable pub create_feed : ℕ → S → Text → Option (S × Bool × List T)
  create_feed ref m feed =
      let media = stream.create_media feed m in
      if stream.is_track feed m
      then Option.map (λ n. (n, true, media ∷ [])) (stream.add_connection ref media m)
      else some (m, false, [])

  -- The loop over the feeds at one stream.
  unfoldable pub create_feeds : ℕ → S → List Text → Option (S × Bool × List T)
  create_feeds ref m [] = some (m, false, [])
  create_feeds ref m (feed ∷ feeds) = do
    (n, found, ts) ← create_feed ref m feed
    (k, later, us) ← create_feeds ref n feeds
    some (k, found || later, ts ++ us)

  -- The loop over the streams.
  unfoldable pub create_all : ℕ → List Text → List S → Option (Made S T)
  unfolding create_feeds
  create_all ref feeds [] = some (record { medias = []; found = false; tracks = [] })
  create_all ref feeds (m ∷ ms) = do
    (n, found, ts) ← create_feeds ref m feeds
    rest ← create_all ref feeds ms
    some (record {
      medias = n ∷ rest.medias;
      found = found || rest.found;
      tracks = ts ++ rest.tracks;
    })

  -- A round of the legacy handler: at most one track of a stream, for the first ID that it has.
  unfoldable pub create_first : ℕ → S → Option (S × Bool × List T)
  unfolding create_feed
  create_first ref m =
      if stream.is_track (codes "frontdoor-video") m
      then create_feed ref m (codes "frontdoor-video")
      else create_feed ref m (codes "frontdoor-audio")

  unfoldable pub create_legacy : ℕ → List S → Option (Made S T)
  unfolding create_first
  create_legacy ref [] = some (record { medias = []; found = false; tracks = [] })
  create_legacy ref (m ∷ ms) = do
    (n, found, ts) ← create_first ref m
    rest ← create_legacy ref ms
    some (record {
      medias = n ∷ rest.medias;
      found = found || rest.found;
      tracks = ts ++ rest.tracks;
    })

  -- The end of both handlers, with the library's `connectionAddMediaTracks` as `add_tracks`.
  unfoldable pub answer_made : (ℕ → List T → Bool) → ℕ → Made S T → TracksOutcome S T
  answer_made add_tracks ref made = record {
    medias = made.medias;
    added = some made.tracks;
    calls =
        (if add_tracks ref made.tracks
          then (if made.found then response 201 [] else refusal 404)
          else refusal 500)
        ∷ request_free
        ∷ [];
  }

  abbrev pub refuse : ℕ → List S → TracksOutcome S T
  refuse code ms = record { medias = ms; added = none; calls = refusal code ∷ request_free ∷ [] }

  module _ {J : Type 0} (json : JsonOps J) (add_tracks : ℕ → List T → Bool) where
    -- The IDs of the tracks in a request, unless it is refused with 400.
    unfoldable pub feeds_of : Request → Option (List Text)
    feeds_of req = do
      payload ← if is_some_format application_json req.content_format then req.payload else none
      j ← json.parse payload
      (tracks, after) ← json.entry (codes "tracks") j
      items ← json.get_array tracks
      all_strings json items

    -- `allowed` is the answer of the IAM module for "Webrtc:VideoStream".
    unfoldable pub handle_tracks : Bool → Request → List S → Option (TracksOutcome S T)
    unfolding create_all answer_made feeds_of
    handle_tracks allowed req ms =
        if allowed
        then elim (feeds_of req) [
          | none ↦ some (refuse 400 ms)
          | some feeds ↦
              Option.map (answer_made add_tracks req.connection)
                (create_all req.connection feeds ms)
        ]
        else some (refuse 401 ms)

  unfoldable pub handle_legacy :
      (ℕ → List T → Bool) → Bool → Request → List S → Option (TracksOutcome S T)
  unfolding create_legacy answer_made
  handle_legacy add_tracks allowed req ms =
      if allowed
      then Option.map (answer_made add_tracks req.connection) (create_legacy req.connection ms)
      else some (refuse 401 ms)

-- The handler for the IDs of the tracks.
unfoldable pub handle_default : {J : Type 0} → JsonOps J → Bool → List RequestCall
handle_default json allowed =
    if allowed
    then response 205 (
        json.dump (
          json.object (
            (codes "videoTrackId", json.string (codes "frontdoor-video"))
            ∷ (codes "audioTrackId", json.string (codes "frontdoor-audio"))
            ∷ [])))
      ∷ request_free
      ∷ []
    else refusal 401 ∷ request_free ∷ []
