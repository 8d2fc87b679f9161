-- ===== src/Signaling/Invariant.antt =====
-- What holds of a signaling stream between two events: the flags of
-- src/library/signaling-stream/signaling_stream.cpp agree with the futures that the SDK holds.
use edge_device_webrtc.Prelude.{
  ℕ, ◌≡◌, refl, ◌≢◌, Bool, true, false, Option, none, some, List, [], ◌∷◌, ◌++◌, Text, codes, arith,
  is_some, if◌then◌else◌,
}
use edge_device_webrtc.Json.{JsonOps}
use edge_device_webrtc.Signaling.State.{
  Stream, Waiting, ErrorCode, TurnServer, ec_ok, ec_eof, ec_failed, accept, read_length,
  read_object, new_stream,
}
use edge_device_webrtc.Signaling.Stream.{
  start, cleanup, close_stream, stream_closed, try_write_stream, send_signalling_object,
  stream_write_callback, read_obj_length, do_read_object, handle_read_obj_len, has_read_obj_len,
  create_media_tracks, create_webrtc_connection, stream_accepted, ice_servers_resolved,
  parse_ice_servers,
}
use edge_device_webrtc.Signaling.Object.{
  done, turn_servers_message, signaling_message, send_turn_servers, handle_object, handle_parsed,
  handle_parse_result, >>=-eq-done, or_throw, next_object, handle_read_object, has_read_object,
}
use edge_device_webrtc.Signaling.Events.{
  Event, accept_resolved, ice_resolved, length_resolved, object_resolved, write_resolved,
  close_resolved, connection_ended, send, add_tracks, is_enabled, step, Reach, started, next,
}

abbrev pub is_read : Option Waiting → Bool
is_read (some read_length) = true
is_read (some read_object) = true
is_read _ = false

pub record Inv {J : Type 0} (s : Stream J) : Type 0 where
  pub used_well : s.misused ≡ false
  pub reading_flag : s.reading ≡ is_read s.future
  pub write_flag : s.write_future ≡ is_some s.write_buf
  pub closing_flag : s.closing ≡ s.close_future
  pub closing_closed : s.closing ≡ true → s.closed ≡ true
  pub no_connection_yet : s.ice_future ≡ true → s.webrtc_connection ≡ false
  pub no_read_yet : s.ice_future ≡ true → s.reading ≡ false
  pub accept_once : s.accepted ≡ true → s.future ≢ some accept

module _ {J : Type 0} where
  start-Inv : Inv {J = J} (start new_stream)
  unfolding start
  start-Inv = ground arith

  cleanup-Inv : (s : Stream J) → Inv s → Inv (cleanup s)
  unfolding cleanup
  cleanup-Inv s v = ground arith

  close_stream-Inv : (s : Stream J) → Inv s → Inv (close_stream s)
  unfolding close_stream
  close_stream-Inv s v = ground arith

  stream_closed-Inv :
      (s : Stream J) → Inv s → Inv (stream_closed (record s { close_future = false }))
  unfolding stream_closed
  stream_closed-Inv s v = ground arith

  try_write_stream-Inv : (s : Stream J) → Inv s → Inv (try_write_stream s)
  unfolding try_write_stream
  try_write_stream-Inv s v = ground arith

  send-Inv : (str : Text) (s : Stream J) → Inv s → Inv (send_signalling_object str s)
  unfolding send_signalling_object
  send-Inv str s v =
      try_write_stream-Inv (record s { write_buffers = s.write_buffers ++ str ∷ [] }) (ground arith)

  send_frame :
      (str : Text) (s : Stream J)
      → let t = send_signalling_object str s in
        (t.future ≡ s.future) × (t.ice_future ≡ s.ice_future)
  unfolding send_signalling_object
  send_frame str s = ground arith

  stream_write_callback-Inv :
      (s : Stream J) → Inv s → Inv (stream_write_callback (record s { write_future = false }))
  unfolding stream_write_callback
  stream_write_callback-Inv s v =
      try_write_stream-Inv (record s { write_future = false; write_buf = none }) (ground arith)

  -- A read may start once `future_` has resolved and the connection exists.
  read_obj_length-Inv :
      (s : Stream J) → Inv s → s.future ≡ none → s.ice_future ≡ false → Inv (read_obj_length s)
  unfolding read_obj_length
  read_obj_length-Inv s v f i = ground arith

  do_read_object-Inv :
      (len : ℕ) (s : Stream J)
      → Inv s
      → s.future ≡ none
      → s.ice_future ≡ false
      → Inv (do_read_object len s)
  unfolding do_read_object
  do_read_object-Inv len s v f i = ground arith

  handle_read_obj_len-Inv :
      (s : Stream J) → Inv s → s.future ≡ none → s.ice_future ≡ false → Inv (handle_read_obj_len s)
  unfolding handle_read_obj_len
  handle_read_obj_len-Inv s v f i =
      ground (arith, read_obj_length-Inv s v f i, do_read_object-Inv s.object_length s v f i)

  create_media_tracks-Inv :
      (throws : Bool) (tracks : List ℕ) (s : Stream J)
      → Inv s
      → Inv (create_media_tracks throws tracks s).0
  unfolding create_media_tracks
  create_media_tracks-Inv throws tracks s v = ground arith

  create_webrtc_connection-Inv :
      (throws : Bool) (s : Stream J)
      → Inv s
      → s.ice_future ≡ false
      → Inv (create_webrtc_connection throws s)
  unfolding create_webrtc_connection
  create_webrtc_connection-Inv throws s v i = ground arith

  stream_accepted-Inv :
      (ec : ErrorCode) (s : Stream J)
      → Inv s
      → s.future ≡ some accept
      → Inv (stream_accepted ec (record s { future = none }))
  unfolding stream_accepted read_obj_length
  stream_accepted-Inv ec_ok s v f = ground arith
  stream_accepted-Inv ec_eof s v f = ground arith
  stream_accepted-Inv ec_failed s v f = ground arith

  -- Only the futures and `accepted_` matter for the read that may start behind it.
  create_webrtc_connection_frame :
      (throws : Bool) (s : Stream J)
      → let t = create_webrtc_connection throws s in
        (t.future ≡ s.future)
        × (t.ice_future ≡ s.ice_future)
        × (t.accepted ≡ s.accepted)
        × (t.reading ≡ s.reading)
  unfolding create_webrtc_connection
  create_webrtc_connection_frame throws s = ground arith

  created_read-Inv :
      (throws : Bool) (s : Stream J)
      → Inv s
      → s.ice_future ≡ false
      → (s.accepted ≡ true → s.future ≡ none)
      → let t = create_webrtc_connection throws s in
        Inv (if t.accepted then read_obj_length t else t)
  created_read-Inv throws s v i f = ground (
    arith,
    create_webrtc_connection-Inv throws s v i,
    create_webrtc_connection_frame throws s,
    read_obj_length-Inv (create_webrtc_connection throws s),
  )

  ice_servers_resolved-Inv :
      (ec : ErrorCode) (servers : List TurnServer) (throws : Bool) (s : Stream J)
      → Inv s
      → s.ice_future ≡ true
      → Inv (ice_servers_resolved ec servers throws (record s { ice_future = false }))
  unfolding ice_servers_resolved
  ice_servers_resolved-Inv ec_ok servers throws s v i =
      created_read-Inv throws
        (record s { ice_future = false; turn_servers = s.turn_servers ++ servers }) (ground arith)
        refl (ground arith)
  ice_servers_resolved-Inv ec_eof servers throws s v i =
      created_read-Inv throws (record s { ice_future = false }) (ground arith) refl (ground arith)
  ice_servers_resolved-Inv ec_failed servers throws s v i =
      created_read-Inv throws (record s { ice_future = false }) (ground arith) refl (ground arith)

  has_read_obj_len-Inv :
      (ec : ErrorCode) (s : Stream J)
      → Inv (record s { reading = false })
      → s.future ≡ none
      → s.ice_future ≡ false
      → Inv (has_read_obj_len ec s)
  unfolding has_read_obj_len
  has_read_obj_len-Inv ec_ok s v f i = handle_read_obj_len-Inv (record s { reading = false }) v f i
  has_read_obj_len-Inv ec_eof s v f i = close_stream-Inv (record s { reading = false }) v
  has_read_obj_len-Inv ec_failed s v f i = cleanup-Inv (record s { reading = false }) v

-- The part of the invariant that handling an object may rely on and must keep.
abbrev IsIdle : {J : Type 0} → Stream J → Type 0
IsIdle s = Inv s × (s.future ≡ none) × (s.ice_future ≡ false)

module _ {J : Type 0} (json : JsonOps J) where
  send_turn_servers-IsIdle : (s : Stream J) → IsIdle s → IsIdle (send_turn_servers json s)
  unfolding send_turn_servers
  send_turn_servers-IsIdle s v =
      let str = turn_servers_message json s.turn_servers in
      ground (arith, send-Inv str s v.0, send_frame str s)

  handle_object-IsIdle :
      (type : ℕ) (obj : J) (s : Stream J) {t : Stream J}
      → IsIdle s
      → handle_object json type obj s ≡ done t
      → IsIdle t
  unfolding handle_object
  handle_object-IsIdle type obj s v h = ground (arith, send_turn_servers-IsIdle s v)

  handle_parsed-IsIdle :
      (obj : J) (s : Stream J) {t : Stream J}
      → IsIdle s
      → handle_parsed json obj s ≡ done t
      → IsIdle t
  unfolding handle_parsed
  handle_parsed-IsIdle obj s v h =
      let (tag, _, typed) = >>=-eq-done (or_throw (json.field obj (codes "type"))) _ h in
      let (type, _, handled) = >>=-eq-done (or_throw (json.get_int tag)) _ typed in
      handle_object-IsIdle type obj s v handled

  next_object-Inv : (s : Stream J) → IsIdle s → Inv (next_object json s)
  unfolding next_object
  next_object-Inv s v =
      read_obj_length-Inv (record s { object_buffer = none }) (ground arith) v.1 v.2

  handle_parse_result-Inv :
      (r : Option J) (s : Stream J) {t : Stream J}
      → IsIdle s
      → handle_parse_result json r s ≡ done t
      → Inv t
  unfolding handle_parse_result
  handle_parse_result-Inv none s v h = ground (arith, next_object-Inv s v)
  handle_parse_result-Inv (some obj) s v h =
      let (u, handled, last) = >>=-eq-done (handle_parsed json obj s) _ h in
      ground (arith, next_object-Inv u (handle_parsed-IsIdle obj s v handled))

  handle_read_object-Inv :
      (bytes : Text) (s : Stream J) {t : Stream J}
      → IsIdle s
      → handle_read_object json bytes s ≡ done t
      → Inv t
  unfolding handle_read_object
  handle_read_object-Inv bytes s {t} v h = ground (
    arith,
    read_obj_length-Inv s v.0 v.1 v.2,
    handle_parse_result-Inv (json.parse bytes) s {t = t} v,
  )

  has_read_object-Inv :
      (ec : ErrorCode) (bytes : Text) (s : Stream J) {t : Stream J}
      → IsIdle (record s { reading = false })
      → has_read_object json ec bytes s ≡ done t
      → Inv t
  unfolding has_read_object
  has_read_object-Inv ec_ok bytes s v h =
      handle_read_object-Inv bytes (record s { reading = false }) v h
  has_read_object-Inv ec_eof bytes s v h =
      ground (arith, close_stream-Inv (record s { reading = false }) v.0)
  has_read_object-Inv ec_failed bytes s v h =
      ground (arith, cleanup-Inv (record s { reading = false }) v.0)

  step-Inv :
      (e : Event J) (s : Stream J) {t : Stream J}
      → Inv s
      → is_enabled e s ≡ true
      → step json e s ≡ done t
      → Inv t
  unfolding step
  step-Inv (accept_resolved ec) s v a h = ground (arith, stream_accepted-Inv ec s v)
  step-Inv (ice_resolved ec rs throws) s v a h =
      ground (arith, ice_servers_resolved-Inv ec (parse_ice_servers rs) throws s v)
  step-Inv (length_resolved ec value count) s v a h = ground (
    arith,
    has_read_obj_len-Inv ec (record s { future = none; object_length = value; read_len = count }),
  )
  step-Inv (object_resolved ec bytes count) s v a h =
      has_read_object-Inv ec bytes
        (record s { future = none; object_buffer = some bytes; read_len = count }) (ground arith) h
  step-Inv write_resolved s v a h = ground (arith, stream_write_callback-Inv s v)
  step-Inv close_resolved s v a h = ground (arith, stream_closed-Inv s v)
  step-Inv connection_ended s v a h = ground (arith, close_stream-Inv s v)
  step-Inv (send type text metadata) s v a h =
      ground (arith, send-Inv (signaling_message json type text metadata) s v)
  step-Inv (add_tracks throws tracks) s v a h =
      ground (arith, create_media_tracks-Inv throws tracks s v)

  -- In every state that the events lead to, no SDK future has ever been armed while it was pending,
  -- `reading_` is set exactly while a read is outstanding, `writeBuf_` exactly while a write is, and
  -- `closing_` exactly while a close is; and before the ICE servers have resolved there is neither a
  -- WebRTC connection nor a read.
  pub Reach-Inv : {s : Stream J} → Reach json s → Inv s
  Reach-Inv started = start-Inv
  Reach-Inv (next {s = s} e r a h) = step-Inv e s (Reach-Inv r) a h
