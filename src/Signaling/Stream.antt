-- ===== src/Signaling/Stream.antt =====
-- Writing, reading and closing in src/library/signaling-stream/signaling_stream.cpp. A method
-- takes the object to the object that it leaves; each works on the event queue's thread.
use edge_device_webrtc.Prelude.{
  ℕ, Bool, true, false, not, ◌&&◌, ◌||◌, Option, none, some, List, [], ◌∷◌, ◌++◌, Text, is_some,
  is_none, ltb, if◌then◌else◌, is_empty, replicate,
}
use edge_device_webrtc.Signaling.State.{
  Stream, Call, Waiting, ErrorCode, TurnServer, ec_ok, ec_eof, ec_failed, ice_request,
  stream_accept, stream_close, connection_stop, stream_read, stream_write, connection_create,
  create_tracks, accept, read_length, read_object,
}
use edge_device_webrtc.Signaling.Frame.{frame}

module _ {J : Type 0} where
  unfoldable pub called : Call J → Stream J → Stream J
  called c s = record s { calls = s.calls ++ c ∷ [] }

  -- Arms `future_` for `w`.
  unfoldable pub arm : Waiting → Stream J → Stream J
  arm w s = record s { future = some w; misused = s.misused || is_some s.future }

  -- `start`; the ICE request has a future of its own.
  unfoldable pub start : Stream J → Stream J
  unfolding called arm
  start s =
      let asked = record (called ice_request s) { ice_future = true } in
      arm accept (called stream_accept (record asked { self = true }))

  -- `if (webrtcConnection_ != nullptr) { stop(); webrtcConnection_ = nullptr; }`
  unfoldable pub stop_connection : Stream J → Stream J
  unfolding called
  stop_connection s =
      if s.webrtc_connection
      then record (called connection_stop s) { webrtc_connection = false }
      else s

  unfoldable pub cleanup : Stream J → Stream J
  unfolding stop_connection
  cleanup s = record (stop_connection (record s { closed = true })) { self = false }

  unfoldable pub close_stream : Stream J → Stream J
  unfolding cleanup called
  close_stream s =
      if s.closed
      then (if not s.closing && not s.reading && is_none s.write_buf then cleanup s else s)
      else (let stopped = stop_connection (record s { closed = true; closing = true }) in
          record (called stream_close stopped) { close_future = true })

  -- The callback of `streamClosed`.
  unfoldable pub stream_closed : Stream J → Stream J
  unfolding cleanup
  stream_closed s =
      let t = record s { closing = false } in
      if not t.reading && is_none t.write_buf then cleanup t else t

  -- The end of `tryWriteStream`, on what `writeBuffers_` holds.
  unfoldable pub write_front : List Text → Stream J → Stream J
  unfolding called
  write_front [] s = s
  write_front (front ∷ rest) s =
      let t = record s { write_buffers = rest; write_buf = some (frame front) } in
      record (called (stream_write (frame front)) t) {
        write_future = true;
        misused = t.misused || t.write_future;
      }

  unfoldable pub try_write_stream : Stream J → Stream J
  unfolding close_stream write_front
  try_write_stream s =
      if s.closed
      then close_stream s
      else (if is_some s.write_buf then s else write_front s.write_buffers s)

  unfoldable pub send_signalling_object : Text → Stream J → Stream J
  unfolding try_write_stream
  send_signalling_object str s =
      try_write_stream (record s { write_buffers = s.write_buffers ++ str ∷ [] })

  -- The callback of `streamWriteCallback`, which ignores the error code.
  unfoldable pub stream_write_callback : Stream J → Stream J
  unfolding try_write_stream
  stream_write_callback s = try_write_stream (record s { write_buf = none })

  unfoldable pub read_obj_length : Stream J → Stream J
  unfolding cleanup arm called
  read_obj_length s =
      if s.closed
      then cleanup s
      else arm read_length (called (stream_read 4) (record s { reading = true; object_length = 0 }))

  unfoldable pub do_read_object : ℕ → Stream J → Stream J
  unfolding cleanup arm called
  do_read_object len s =
      if s.closed
      then cleanup s
      else (let t = record s { reading = true; object_buffer = some (replicate len 0) } in
          arm read_object (called (stream_read len) t))

  unfoldable pub handle_read_obj_len : Stream J → Stream J
  unfolding read_obj_length do_read_object
  handle_read_obj_len s =
      if ltb s.read_len 4 || ltb s.object_length 1
      then read_obj_length s
      else do_read_object s.object_length s

  -- The callback of `hasReadObjLen`; `hasReadObject` has the same first two branches.
  unfoldable pub has_read_obj_len : ErrorCode → Stream J → Stream J
  unfolding handle_read_obj_len close_stream cleanup
  has_read_obj_len ec_eof s = close_stream (record s { reading = false })
  has_read_obj_len ec_failed s = cleanup (record s { reading = false })
  has_read_obj_len ec_ok s = handle_read_obj_len (record s { reading = false })

  -- `createTracks`: the WebRTC connection may throw (`throws`), else it takes the tracks; before it
  -- exists they are kept. The result is the method's.
  unfoldable pub create_media_tracks : Bool → List ℕ → Stream J → Stream J × Bool
  unfolding called
  create_media_tracks throws tracks s =
      if s.webrtc_connection
      then (called (create_tracks tracks) s, not throws)
      else (record s { deferred_tracks = s.deferred_tracks ++ tracks }, true)

  unfoldable pub create_webrtc_connection : Bool → Stream J → Stream J
  unfolding called create_media_tracks
  create_webrtc_connection throws s =
      let t = record (called (connection_create s.turn_servers) s) { webrtc_connection = true } in
      if is_empty t.deferred_tracks
      then t
      else record (create_media_tracks throws t.deferred_tracks t).0 { deferred_tracks = [] }

  -- The callback of `streamAccepted`. On an error the connection is stopped, and stays set.
  unfoldable pub stream_accepted : ErrorCode → Stream J → Stream J
  unfolding read_obj_length called
  stream_accepted ec_ok s =
      let t = record s { accepted = true } in if t.webrtc_connection then read_obj_length t else t
  stream_accepted _ s =
      let t = record s { self = false } in
      if t.webrtc_connection then called connection_stop t else t

  -- The callback of `iceServersResolved`, given the servers that `parseIceServers` reads.
  unfoldable pub ice_servers_resolved : ErrorCode → List TurnServer → Bool → Stream J → Stream J
  unfolding create_webrtc_connection read_obj_length
  ice_servers_resolved ec_ok servers throws s =
      let t = record s { turn_servers = s.turn_servers ++ servers } in
      let u = create_webrtc_connection throws t in if u.accepted then read_obj_length u else u
  ice_servers_resolved _ servers throws s =
      let u = create_webrtc_connection throws s in if u.accepted then read_obj_length u else u

-- One server as the SDK's getters report it: a missing user name or credential is NULL.
pub record ServerReport : Type 0 where
  pub report_username : Option Text
  pub report_credential : Option Text
  pub report_urls : List Text

abbrev or_empty : Option Text → Text
or_empty none = []
or_empty (some t) = t

unfoldable pub parse_ice_servers : List ServerReport → List TurnServer
parse_ice_servers [] = []
parse_ice_servers (r ∷ rs) =
    record {
      urls = r.report_urls;
      username = or_empty r.report_username;
      credential = or_empty r.report_credential;
    }
    ∷ parse_ice_servers rs
