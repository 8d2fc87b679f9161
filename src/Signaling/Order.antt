-- ===== src/Signaling/Order.antt =====
-- What a signaling stream writes: src/library/signaling-stream/signaling_stream.cpp puts objects in
-- `writeBuffers_` and hands them to the SDK one at a time.
pub mod Run
use edge_device_webrtc.Signaling.Object.{
  handle_read_object, thrown, next_object, has_read_object, handle_parsed, handle_parse_result,
  or_throw, >>=-eq-done, give_offer_answer, give_ice, turn_servers_message, signaling_message, done,
  send_turn_servers, handle_object,
}
use edge_device_webrtc.Signaling.Events.{
  connection_ended, close_resolved, write_resolved, add_tracks, length_resolved, ice_resolved,
  accept_resolved, step, run, object_resolved, send, Event,
}
use edge_device_webrtc.Signaling.Frame.{frame}
use edge_device_webrtc.Signaling.Stream.{
  parse_ice_servers, stream_write_callback, ice_servers_resolved, handle_read_obj_len, arm,
  write_front, stream_accepted, send_signalling_object, read_obj_length, has_read_obj_len,
  do_read_object, create_webrtc_connection, create_media_tracks, try_write_stream, stream_closed,
  stop_connection, close_stream, cleanup, called,
}
use edge_device_webrtc.Signaling.State.{
  handle_offer_answer, handle_ice, turn_request, object_code, ec_failed, ec_eof, TurnServer, ec_ok,
  connection_create, stream_read, create_tracks, ErrorCode, stream_close, stream_write,
  connection_stop, Stream, Call,
}
use edge_device_webrtc.Prelude.{
  codes, not, ◌||◌, ltb, ◌==◌, if◌then◌else◌, replicate, ◌∙◌, ap, ℕ, ◌≡◌, refl, Bool, true, false,
  Option, none, some, List, [], ◌∷◌, ◌++◌, Text, map, append_assoc, append-nil, map-append, arith,
}
use edge_device_webrtc.Json.{JsonOps}

-- The buffers given to `nabto_device_stream_write`, in order.
abbrev pub written : {J : Type 0} → List (Call J) → List Text
written [] = []
written (stream_write buf ∷ cs) = buf ∷ written cs
written (_ ∷ cs) = written cs

-- What has been written and what waits to be.
abbrev pub out : {J : Type 0} → Stream J → List Text
out s = written s.calls ++ map frame s.write_buffers

module _ {J : Type 0} where
  pub written-append : (cs ds : List (Call J)) → written (cs ++ ds) ≡ written cs ++ written ds
  written-append [] ds = refl
  written-append (stream_write buf ∷ cs) ds = ap (◌∷◌ buf) (written-append cs ds)
  written-append (_ ∷ cs) ds = written-append cs ds

  pub out-called : (c : Call J) (s : Stream J) → written (c ∷ []) ≡ [] → out (called c s) ≡ out s
  unfolding called
  out-called c s h = simp (written-append, h, append-nil)

  pub out-stop_connection : (s : Stream J) → out (stop_connection s) ≡ out s
  unfolding stop_connection
  out-stop_connection s = ground (arith, out-called connection_stop s refl)

  pub out-cleanup : (s : Stream J) → out (cleanup s) ≡ out s
  unfolding cleanup
  out-cleanup s = out-stop_connection (record s { closed = true })

  pub out-close_stream : (s : Stream J) → out (close_stream s) ≡ out s
  unfolding close_stream
  out-close_stream s =
      let stopped = stop_connection (record s { closed = true; closing = true }) in
      ground (
        arith,
        out-cleanup s,
        out-stop_connection (record s { closed = true; closing = true }),
        out-called stream_close stopped refl,
      )

  pub out-stream_closed : (s : Stream J) → out (stream_closed s) ≡ out s
  unfolding stream_closed
  out-stream_closed s = ground (arith, out-cleanup (record s { closing = false }))

  pub out-write_front :
      (q : List Text) (s : Stream J)
      → s.write_buffers ≡ q
      → out (write_front q s) ≡ written s.calls ++ map frame q
  unfolding write_front
  out-write_front [] s e = rw e
  out-write_front (front ∷ rest) s e = simp (written-append, append_assoc)

  -- Moving the front of the queue to the SDK changes neither the objects nor their order.
  pub out-try_write_stream : (s : Stream J) → out (try_write_stream s) ≡ out s
  unfolding try_write_stream
  out-try_write_stream s =
      ground (arith, out-close_stream s, out-write_front s.write_buffers s refl)

  pub out-send :
      (str : Text) (s : Stream J) → out (send_signalling_object str s) ≡ out s ++ frame str ∷ []
  unfolding send_signalling_object
  out-send str s =
      out-try_write_stream (record s { write_buffers = s.write_buffers ++ str ∷ [] })
      ∙ simp (map-append, append_assoc)

  pub out-read_obj_length : (s : Stream J) → out (read_obj_length s) ≡ out s
  unfolding read_obj_length arm
  out-read_obj_length s = ground (
    arith,
    out-cleanup s,
    out-called (stream_read 4) (record s { reading = true; object_length = 0 }) refl,
  )

  pub out-do_read_object : (len : ℕ) (s : Stream J) → out (do_read_object len s) ≡ out s
  unfolding do_read_object arm
  out-do_read_object len s = ground (
    arith,
    out-cleanup s,
    out-called (stream_read len)
        (record s { reading = true; object_buffer = some (replicate len 0) }) refl,
  )

  pub out-has_read_obj_len : (ec : ErrorCode) (s : Stream J) → out (has_read_obj_len ec s) ≡ out s
  unfolding has_read_obj_len handle_read_obj_len
  out-has_read_obj_len ec_ok s =
      let t = record s { reading = false } in
      ground (arith, out-read_obj_length t, out-do_read_object s.object_length t)
  out-has_read_obj_len ec_eof s = out-close_stream (record s { reading = false })
  out-has_read_obj_len ec_failed s = out-cleanup (record s { reading = false })

  pub out-create_media_tracks :
      (throws : Bool) (tracks : List ℕ) (s : Stream J)
      → out (create_media_tracks throws tracks s).0 ≡ out s
  unfolding create_media_tracks
  out-create_media_tracks throws tracks s = ground (arith, out-called (create_tracks tracks) s refl)

  pub out-create_webrtc_connection :
      (throws : Bool) (s : Stream J) → out (create_webrtc_connection throws s) ≡ out s
  unfolding create_webrtc_connection
  out-create_webrtc_connection throws s =
      let t = record (called (connection_create s.turn_servers) s) { webrtc_connection = true } in
      ground (
        arith,
        out-called (connection_create s.turn_servers) s refl,
        out-create_media_tracks throws s.deferred_tracks t,
      )

  pub out-stream_accepted : (ec : ErrorCode) (s : Stream J) → out (stream_accepted ec s) ≡ out s
  unfolding stream_accepted
  out-stream_accepted ec_ok s = ground (arith, out-read_obj_length (record s { accepted = true }))
  out-stream_accepted ec_eof s =
      ground (arith, out-called connection_stop (record s { self = false }) refl)
  out-stream_accepted ec_failed s =
      ground (arith, out-called connection_stop (record s { self = false }) refl)

  pub out-created_read :
      (throws : Bool) (s : Stream J)
      → let t = create_webrtc_connection throws s in
        out (if t.accepted then read_obj_length t else t) ≡ out s
  out-created_read throws s = ground (
    arith,
    out-create_webrtc_connection throws s,
    out-read_obj_length (create_webrtc_connection throws s),
  )

  pub out-ice_servers_resolved :
      (ec : ErrorCode) (servers : List TurnServer) (throws : Bool) (s : Stream J)
      → out (ice_servers_resolved ec servers throws s) ≡ out s
  unfolding ice_servers_resolved
  out-ice_servers_resolved ec_ok servers throws s =
      out-created_read throws (record s { turn_servers = s.turn_servers ++ servers })
  out-ice_servers_resolved ec_eof servers throws s = out-created_read throws s
  out-ice_servers_resolved ec_failed servers throws s = out-created_read throws s
