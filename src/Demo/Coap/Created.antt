-- ===== src/Demo/Coap/Created.antt =====
-- When a request for tracks is answered with 201 (examples/webrtc-demo/main.cpp).
use edge_device_webrtc.Prelude.{
  ◌++◌, [], some, ltb, if◌then◌else◌, ◌≡◌, ◌∷◌, length, Text, Bool, List, ℕ,
}
use edge_device_webrtc.Demo.Streams.{MediaStream}

module _ {S T : Type 0} (stream : MediaStream S T) where
  -- A connection changes neither which tracks a stream has nor the tracks that it makes.
  abbrev pub Steady : Type 0
  Steady =
      (feed : Text) (ref : ℕ) (t : T) (m n : S)
      → stream.add_connection ref t m ≡ some n
      → (stream.is_track feed n ≡ stream.is_track feed m)
        × (stream.create_media feed n ≡ stream.create_media feed m)

  -- The track of each feed that a stream has, in the order of the feeds.
  abbrev pub wanted_of : S → List Text → List T
  wanted_of m [] = []
  wanted_of m (feed ∷ feeds) =
      (if stream.is_track feed m then stream.create_media feed m ∷ [] else []) ++ wanted_of m feeds

  -- Those of all streams, in the order of the streams.
  abbrev pub wanted : List Text → List S → List T
  wanted feeds [] = []
  wanted feeds (m ∷ ms) = wanted_of m feeds ++ wanted feeds ms

  -- Exactly the wanted tracks are made, and one was found if and only if there is one.
  abbrev Exact : List T → Bool → List T → Type 0
  Exact ws found ts = (ts ≡ ws) × (found ≡ ltb 0 (length ws))
