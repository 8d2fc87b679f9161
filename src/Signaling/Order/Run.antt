-- ===== src/Signaling/Order/Run.antt =====
-- The objects that a sequence of events sends, in the order of the frames written: the handlers of
-- src/library/signaling-stream/signaling_stream.cpp, one event after the other.
use edge_device_webrtc.Signaling.Frame.{frame}
use edge_device_webrtc.Signaling.Stream.{parse_ice_servers, stream_write_callback}
use edge_device_webrtc.Signaling.State.{
  ec_failed, ec_eof, handle_offer_answer, handle_ice, ec_ok, turn_request, object_code, ErrorCode,
  Stream,
}
use edge_device_webrtc.Signaling.Object.{
  turn_servers_message, thrown, or_throw, signaling_message, >>=-eq-done, done, handle_read_object,
  send_turn_servers, next_object, has_read_object, handle_parsed, handle_parse_result,
  handle_object, give_offer_answer, give_ice,
}
use edge_device_webrtc.Signaling.Events.{
  connection_ended, close_resolved, write_resolved, add_tracks, length_resolved, ice_resolved,
  accept_resolved, object_resolved, send, step, run, Event,
}
use edge_device_webrtc.Prelude.{
  append_assoc, refl, map-append, ◌∙◌, false, not, none, append-nil, ◌||◌, arith, map, ltb, ◌==◌,
  ◌++◌, some, ◌∷◌, if◌then◌else◌, [], ◌≡◌, Text, codes, ℕ, Option, List,
}
use edge_device_webrtc.Json.{JsonOps}
use edge_device_webrtc.Signaling.Order.{
  out-create_media_tracks, out-stream_closed, out-try_write_stream, out-has_read_obj_len,
  parse_ice_servers, out-ice_servers_resolved, out-cleanup, out-close_stream, out-stream_accepted,
  handle_offer_answer, handle_ice, out-send, out-read_obj_length, out-called, turn_request, frame,
  object_code, ErrorCode, stream_write_callback, Stream, ℕ, step, run, handle_parsed,
  handle_parse_result, handle_object, give_offer_answer, give_ice, Option, List, Event, out,
}

module _ {J : Type 0} (json : JsonOps J) where
  -- The answer to an object of a given type: the TURN servers, to a request for them.
  abbrev answer : ℕ → Stream J → List Text
  answer type s =
      if type == object_code turn_request then turn_servers_message json s.turn_servers ∷ [] else []

  abbrev type_of : J → Option ℕ
  type_of obj = elim (json.field obj (codes "type")) [ none ↦ none | some tag ↦ json.get_int tag ]

  abbrev answer_to : Option J → Stream J → List Text
  answer_to none s = []
  answer_to (some obj) s = elim (type_of obj) [ none ↦ [] | some type ↦ answer type s ]

  -- The objects that an event asks the device to send.
  abbrev pub requested : Event J → Stream J → List Text
  requested (send type text metadata) s = signaling_message json type text metadata ∷ []
  requested (object_resolved ec_ok bytes count) s =
      if ltb count s.object_length || not s.webrtc_connection
      then []
      else answer_to (json.parse bytes) s
  requested _ s = []

  out-give_offer_answer :
      (obj : J) (s : Stream J) {t : Stream J}
      → give_offer_answer json obj s ≡ done t
      → out t ≡ out s
  unfolding give_offer_answer
  out-give_offer_answer obj s h =
      let (offer, _, h1) = >>=-eq-done (or_throw (json.field obj (codes "data"))) _ h in
      let (text, _, h2) = >>=-eq-done (or_throw (json.get_string offer)) _ h1 in
      let (metadata, _, h3) = >>=-eq-done (or_throw (json.field obj (codes "metadata"))) _ h2 in
      ground (arith, out-called (handle_offer_answer text metadata) s refl)

  out-give_ice :
      (obj : J) (s : Stream J) {t : Stream J} → give_ice json obj s ≡ done t → out t ≡ out s
  unfolding give_ice
  out-give_ice obj s h =
      let (ice, _, h1) = >>=-eq-done (or_throw (json.field obj (codes "data"))) _ h in
      let (text, _, h2) = >>=-eq-done (or_throw (json.get_string ice)) _ h1 in
      ground (arith, out-called (handle_ice text) s refl)

  out-handle_object :
      (type : ℕ) (obj : J) (s : Stream J) {t : Stream J}
      → handle_object json type obj s ≡ done t
      → out t ≡ out s ++ map frame (answer type s)
  unfolding handle_object send_turn_servers
  out-handle_object type obj s {t} h = ground (
    arith,
    out-give_offer_answer obj s {t = t},
    out-give_ice obj s {t = t},
    out-send (turn_servers_message json s.turn_servers) s,
    append-nil (out s),
  )

  out-handle_parsed :
      (obj : J) (s : Stream J) {t : Stream J}
      → handle_parsed json obj s ≡ done t
      → out t ≡ out s ++ map frame (answer_to (some obj) s)
  unfolding handle_parsed
  out-handle_parsed obj s h =
      let (tag, tagged, h1) = >>=-eq-done (or_throw (json.field obj (codes "type"))) _ h in
      let (type, typed, h2) = >>=-eq-done (or_throw (json.get_int tag)) _ h1 in
      ground (arith, out-handle_object type obj s h2)

  out-handle_parse_result :
      (r : Option J) (s : Stream J) {t : Stream J}
      → handle_parse_result json r s ≡ done t
      → out t ≡ out s ++ map frame (answer_to r s)
  unfolding handle_parse_result next_object
  out-handle_parse_result none s h =
      ground (arith, out-read_obj_length (record s { object_buffer = none }), append-nil (out s))
  out-handle_parse_result (some obj) s h =
      let (u, handled, last) = >>=-eq-done (handle_parsed json obj s) _ h in
      ground (
        arith,
        out-handle_parsed obj s handled,
        out-read_obj_length (record u { object_buffer = none }),
      )

  out-object_resolved :
      (ec : ErrorCode) (bytes : Text) (count : ℕ) (s : Stream J) {t : Stream J}
      → step json (object_resolved ec bytes count) s ≡ done t
      → out t ≡ out s ++ map frame (requested (object_resolved ec bytes count) s)
  unfolding step has_read_object handle_read_object
  out-object_resolved ec_ok bytes count s {t} h =
      let u = record s {
        future = none;
        object_buffer = some bytes;
        read_len = count;
        reading = false;
      } in
      ground (
        arith,
        out-read_obj_length u,
        out-handle_parse_result (json.parse bytes) u {t = t},
        append-nil (out s),
      )
  out-object_resolved ec_eof bytes count s h =
      let u = record s {
        future = none;
        object_buffer = some bytes;
        read_len = count;
        reading = false;
      } in
      ground (arith, out-close_stream u, append-nil (out s))
  out-object_resolved ec_failed bytes count s h =
      let u = record s {
        future = none;
        object_buffer = some bytes;
        read_len = count;
        reading = false;
      } in
      ground (arith, out-cleanup u, append-nil (out s))

  out-step :
      (e : Event J) (s : Stream J) {t : Stream J}
      → step json e s ≡ done t
      → out t ≡ out s ++ map frame (requested e s)
  unfolding step stream_write_callback
  out-step (accept_resolved ec) s h =
      ground (arith, out-stream_accepted ec (record s { future = none }), append-nil (out s))
  out-step (ice_resolved ec rs throws) s h = ground (
    arith,
    out-ice_servers_resolved ec (parse_ice_servers rs) throws (record s { ice_future = false }),
    append-nil (out s),
  )
  out-step (length_resolved ec value count) s h =
      let u = record s { future = none; object_length = value; read_len = count } in
      ground (arith, out-has_read_obj_len ec u, append-nil (out s))
  out-step (object_resolved ec bytes count) s h = out-object_resolved ec bytes count s h
  out-step write_resolved s h =
      let u = record s { write_future = false; write_buf = none } in
      ground (arith, out-try_write_stream u, append-nil (out s))
  out-step close_resolved s h =
      ground (arith, out-stream_closed (record s { close_future = false }), append-nil (out s))
  out-step connection_ended s h = ground (arith, out-close_stream s, append-nil (out s))
  out-step (send type text metadata) s h =
      ground (arith, out-send (signaling_message json type text metadata) s)
  out-step (add_tracks throws tracks) s h =
      ground (arith, out-create_media_tracks throws tracks s, append-nil (out s))

  -- The objects that a sequence of events asks the device to send, in order.
  pub requests : List (Event J) → Stream J → List Text
  requests [] s = []
  requests (e ∷ es) s =
      requested e s ++ elim (step json e s) [ done t ↦ requests es t | thrown ↦ [] ]

  -- Over any sequence of events whose handlers return, the frames that have been given to the SDK,
  -- followed by those of the objects that still wait, are the old ones followed by the frames of
  -- exactly the objects that the events asked for, in that order: none is lost, doubled or overtaken.
  pub out-run :
      (es : List (Event J)) (s : Stream J) {t : Stream J}
      → run json es s ≡ done t
      → out t ≡ out s ++ map frame (requests es s)
  unfolding run requests
  out-run [] s h = ground (arith, append-nil (out s))
  out-run (e ∷ es) s h =
      let (u, stepped, rest) = >>=-eq-done (step json e s) _ h in
      out-run es u rest ∙ simp (out-step e s stepped, stepped, map-append, append_assoc)
