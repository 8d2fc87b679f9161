-- ===== src/Signaling/Events.antt =====
-- The life of a signaling stream as a sequence of events on the event queue of
-- src/library/signaling-stream/signaling_stream.cpp. A callback runs only while the SDK holds the
-- future that it waits for; sends and the end of the connection may come at any time.
use edge_device_webrtc.Prelude.{[], ◌∷◌, ℕ, ◌≡◌, Bool, true, false, Option, none, some, List, Text}
use edge_device_webrtc.Json.{JsonOps}
use edge_device_webrtc.Signaling.State.{
  Stream, Waiting, ErrorCode, ObjectType, accept, read_length, read_object, new_stream,
}
use edge_device_webrtc.Signaling.Stream.{
  ServerReport, parse_ice_servers, start, stream_accepted, ice_servers_resolved, has_read_obj_len,
  stream_write_callback, stream_closed, close_stream, create_media_tracks, send_signalling_object,
}
use edge_device_webrtc.Signaling.Object.{◌>>=◌, Outcome, done, signaling_message, has_read_object}

-- A future that resolves, a call by the connection or the application, or the connection's
-- `CLOSED` or `FAILED`.
pub data Event (J : Type 0) : Type 0 where
  accept_resolved : ErrorCode → Event J
  ice_resolved : ErrorCode → List ServerReport → Bool → Event J
  length_resolved : ErrorCode → (value count : ℕ) → Event J
  object_resolved : ErrorCode → (bytes : Text) → (count : ℕ) → Event J
  write_resolved close_resolved connection_ended : Event J
  send : ObjectType → Text → J → Event J
  add_tracks : Bool → List ℕ → Event J

abbrev pub awaits : Waiting → Option Waiting → Bool
awaits accept (some accept) = true
awaits read_length (some read_length) = true
awaits read_object (some read_object) = true
awaits _ _ = false

abbrev pub is_enabled : {J : Type 0} → Event J → Stream J → Bool
is_enabled (accept_resolved ec) s = awaits accept s.future
is_enabled (ice_resolved ec rs b) s = s.ice_future
is_enabled (length_resolved ec v n) s = awaits read_length s.future
is_enabled (object_resolved ec bytes n) s = awaits read_object s.future
is_enabled write_resolved s = s.write_future
is_enabled close_resolved s = s.close_future
is_enabled connection_ended s = true
is_enabled (send type text metadata) s = true
is_enabled (add_tracks throws tracks) s = true

module _ {J : Type 0} (json : JsonOps J) where
  -- The SDK drops the future and hands over what it read; then the queued callback runs.
  unfoldable pub step : Event J → Stream J → Outcome (Stream J)
  unfolding create_media_tracks
  step (accept_resolved ec) s = done (stream_accepted ec (record s { future = none }))
  step (ice_resolved ec reports throws) s =
      done (
        ice_servers_resolved ec (parse_ice_servers reports) throws
          (record s { ice_future = false }))
  step (length_resolved ec value count) s =
      done
        (has_read_obj_len ec (record s { future = none; object_length = value; read_len = count }))
  step (object_resolved ec bytes count) s =
      has_read_object json ec bytes
        (record s { future = none; object_buffer = some bytes; read_len = count })
  step write_resolved s = done (stream_write_callback (record s { write_future = false }))
  step close_resolved s = done (stream_closed (record s { close_future = false }))
  step connection_ended s = done (close_stream s)
  step (send type text metadata) s =
      done (send_signalling_object (signaling_message json type text metadata) s)
  step (add_tracks throws tracks) s = done (create_media_tracks throws tracks s).0

  -- The streams that some sequence of enabled events reaches.
  pub data Reach : Stream J → Type 0 where
    started : Reach (start new_stream)
    next :
        {s t : Stream J} (e : Event J)
        → Reach s
        → is_enabled e s ≡ true
        → step e s ≡ done t
        → Reach t

  -- A sequence of events, up to the first one whose handler throws.
  unfoldable pub run : List (Event J) → Stream J → Outcome (Stream J)
  run [] s = done s
  run (e ∷ es) s = step e s >>= λ t. run es t
