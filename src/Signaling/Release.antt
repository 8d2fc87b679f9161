-- ===== src/Signaling/Release.antt =====
-- When src/library/signaling-stream/signaling_stream.cpp lets go of `self_`, the reference that
-- keeps the object alive for the SDK's callbacks.
use edge_device_webrtc.Signaling.Stream.{
  try_write_stream, send_signalling_object, close_stream, stream_closed, stream_write_callback,
  stream_accepted, has_read_obj_len,
}
use edge_device_webrtc.Signaling.Object.{
  thrown, done, handle_parsed, handle_parse_result, handle_read_object, has_read_object,
}
use edge_device_webrtc.Signaling.Invariant.{Inv, is_read}
use edge_device_webrtc.Prelude.{refl, none, codes, arith, some, false, ◌≤◌, true, Text, ◌≡◌, ℕ}
use edge_device_webrtc.Signaling.State.{ec_ok, ObjectType, ec_failed, ec_eof, Stream}
use edge_device_webrtc.Json.{JsonOps}
use edge_device_webrtc.Signaling.Events.{
  send, is_enabled, object_resolved, accept_resolved, length_resolved, connection_ended, step,
  close_resolved, write_resolved, Event,
}

-- The events by which a stream closes in an orderly way: a write, the close or the connection ends,
-- a read ends with the end of the stream, or an object is sent. A read that succeeds or fails is none
-- of them: where one ends after the close, the object lets go of itself at once.
pub data IsOrderly {J : Type 0} : Event J → Type 0 where
  write_done : IsOrderly write_resolved
  close_done : IsOrderly close_resolved
  connection_done : IsOrderly connection_ended
  length_eof : (v n : ℕ) → IsOrderly (length_resolved ec_eof v n)
  object_eof : (bytes : Text) (n : ℕ) → IsOrderly (object_resolved ec_eof bytes n)
  sending : (type : ObjectType) (text : Text) (metadata : J) → IsOrderly (send type text metadata)

module _ {J : Type 0} (json : JsonOps J) where
  -- Of the events, the end of a write, of the close or of the connection, the end of the stream in a
  -- read, and an object that is sent let go of the stream only when the SDK holds no read, write or
  -- close future. Nothing is said of a read that succeeds or fails.
  pub orderly_release :
      (e : Event J) (s : Stream J) {t : Stream J}
      → Inv s
      → IsOrderly e
      → is_enabled e s ≡ true
      → step json e s ≡ done t
      → s.self ≡ true
      → t.self ≡ false
      → (is_read t.future ≡ false) × (t.write_future ≡ false) × (t.close_future ≡ false)
  unfolding step stream_write_callback stream_closed close_stream has_read_obj_len has_read_object
      send_signalling_object try_write_stream
  orderly_release e s v write_done a h b r = ground arith
  orderly_release e s v close_done a h b r = ground arith
  orderly_release e s v connection_done a h b r = ground arith
  orderly_release e s v (length_eof x n) a h b r = ground arith
  orderly_release e s v (object_eof bytes n) a h b r = ground arith
  orderly_release e s v (sending type text metadata) a h b r = ground arith

  -- A read that fails lets go of the stream also while the SDK still holds a write future, a close
  -- future, or both: these keep their state.
  failed_read_releases :
      (v n : ℕ) (bytes : Text) (s : Stream J)
      → ((t : Stream J) × (step json (length_resolved ec_failed v n) s ≡ done t)
          × (t.self ≡ false)
          × (t.write_future ≡ s.write_future)
          × (t.close_future ≡ s.close_future))
        × ((t : Stream J) × (step json (object_resolved ec_failed bytes n) s ≡ done t)
            × (t.self ≡ false)
            × (t.write_future ≡ s.write_future)
            × (t.close_future ≡ s.close_future))
  unfolding step has_read_obj_len has_read_object
  failed_read_releases v n bytes s = (
    (_, refl, ground arith, ground arith, ground arith),
    (_, refl, ground arith, ground arith, ground arith),
  )

  -- A failed accept lets go of the stream also while the ICE request is pending.
  failed_accept_releases :
      (s : Stream J)
      → s.ice_future ≡ true
      → (t : Stream J) × (step json (accept_resolved ec_failed) s ≡ done t)
        × (t.self ≡ false)
        × (t.ice_future ≡ true)
  unfolding step stream_accepted
  failed_accept_releases s i = (_, refl, ground arith, ground arith)

  -- An object that parses but whose `type` is no number makes the handler throw: the exception is
  -- no `parse_error`, and nothing in it catches it.
  untyped_object_throws :
      (bytes : Text) (count : ℕ) (s : Stream J) (obj tag : J)
      → s.object_length ≤ count
      → s.webrtc_connection ≡ true
      → json.parse bytes ≡ some obj
      → json.field obj (codes "type") ≡ some tag
      → json.get_int tag ≡ none
      → step json (object_resolved ec_ok bytes count) s ≡ thrown
  unfolding step has_read_object handle_read_object handle_parse_result handle_parsed
  untyped_object_throws bytes count s obj tag l c p f g = ground arith
