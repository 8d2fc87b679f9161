-- ===== src/Signaling/Tests.antt =====
-- Runs of the model of src/library/signaling-stream, and the theorems at concrete inputs.
use edge_device_webrtc.Json.Toy.{toy_json}
use edge_device_webrtc.Signaling.Release.{close_done, orderly_release}
use edge_device_webrtc.Signaling.Order.Run.{out-run, requests}
use edge_device_webrtc.Signaling.Stream.{
  read_obj_length, try_write_stream, send_signalling_object, stop_connection, cleanup,
  stream_closed, start,
}
use edge_device_webrtc.Signaling.Object.{
  next_object, turn_servers_message, send_turn_servers, handle_object, handle_parsed,
  handle_parse_result, done, handle_read_object, has_read_object,
}
use edge_device_webrtc.Signaling.State.{
  stream_read, read_object, read_length, ec_ok, new_stream, Stream,
}
use edge_device_webrtc.Signaling.Order.{written, out}
use edge_device_webrtc.Signaling.Invariant.{is_read, Reach-Inv, Inv}
use edge_device_webrtc.Signaling.Frame.{read_frame-frame, frame, read_frame}
use edge_device_webrtc.Signaling.Events.{close_resolved, started, object_resolved, step, run, Event}
use edge_device_webrtc.Signaling.Drain.{writes_drain, acknowledge_times}
use edge_device_webrtc.Prelude.{
  ◌∷◌, refl, none, map, false, codes, ◌++◌, true, some, arith, [], ◌≡◌, Text,
}

-- The ICE servers have resolved, the stream is accepted and waits for a length.
abbrev opened : Stream Text
opened = record new_stream {
  accepted = true;
  reading = true;
  webrtc_connection = true;
  self = true;
  future = some read_length;
}

-- Waits for the object `3`, a TURN request, with one object being written and one waiting.
abbrev busy : Stream Text
busy = record opened {
  future = some read_object;
  object_length = 1;
  write_buf = some (frame (codes "a"));
  write_future = true;
  write_buffers = codes "b" ∷ [];
}

abbrev asked : Event Text
asked = object_resolved ec_ok (codes "3") 1

abbrev answered : Stream Text
answered = record busy {
  read_len = 1;
  future = some read_length;
  object_length = 0;
  write_buffers = codes "b" ∷ codes "{}" ∷ [];
  calls = stream_read 4 ∷ [];
}

asked_once : run toy_json (asked ∷ []) busy ≡ done answered
unfolding run step has_read_object handle_read_object handle_parse_result handle_parsed
    handle_object send_turn_servers turn_servers_message send_signalling_object try_write_stream
    next_object read_obj_length
asked_once = refl

read_frame-frame_example :
    read_frame (frame (codes "hi") ++ codes "x") ≡ some (codes "hi", codes "x")
read_frame-frame_example = read_frame-frame (codes "hi") (codes "x") (omega arith) (omega arith)

Reach-Inv_example : Inv {J = Text} (start new_stream)
Reach-Inv_example = Reach-Inv toy_json started

out-run_example : out answered ≡ out busy ++ map frame (requests toy_json (asked ∷ []) busy)
out-run_example = out-run toy_json (asked ∷ []) busy asked_once

writes_drain_example :
    let t = acknowledge_times 2 busy in
    (t.write_buffers ≡ []) × (t.write_buf ≡ none) × (written t.calls ≡ frame (codes "b") ∷ [])
writes_drain_example = writes_drain busy refl

abbrev closing : Stream Text
closing = record opened {
  closed = true;
  closing = true;
  close_future = true;
  webrtc_connection = false;
  reading = false;
  future = none;
}

closing_done :
    step toy_json close_resolved closing
    ≡ done (record closing { closing = false; close_future = false; self = false })
unfolding step stream_closed cleanup stop_connection
closing_done = refl

orderly_release_example :
    let t = record closing { closing = false; close_future = false; self = false } in
    (is_read t.future ≡ false) × (t.write_future ≡ false) × (t.close_future ≡ false)
orderly_release_example =
    orderly_release toy_json close_resolved closing (ground arith) close_done refl closing_done refl
      refl
