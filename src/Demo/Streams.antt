-- ===== src/Demo/Streams.antt =====
-- The interface `MediaStream` of src/modules/media-streams/media_stream.hpp, which the demo program
-- gives its tracks to.
use edge_device_webrtc.Prelude.{Text, ℕ, Bool, Option}

-- `S` is the type of streams and `T` that of media tracks. An operation that may throw returns
-- `none` where it does.
pub record MediaStream (S T : Type 0) : Type 0 where
  pub is_track : Text → S → Bool
  -- Whether a codec is found, and the track, whose SDP is reduced to it.
  pub match_media : T → S → Bool × T
  pub add_connection : ℕ → T → S → Option S
  pub remove_connection : ℕ → S → S
  -- The track, but for its mid, which a counter that all streams share gives it.
  pub create_media : Text → S → T
  pub track_id : T → Text
