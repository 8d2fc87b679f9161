-- ===== src/Signaling/Drain.antt =====
-- Progress of the write queue of src/library/signaling-stream/signaling_stream.cpp.
use edge_device_webrtc.Signaling.Frame.{frame}
use edge_device_webrtc.Signaling.Stream.{try_write_stream, stream_write_callback}
use edge_device_webrtc.Signaling.State.{Stream}
use edge_device_webrtc.Prelude.{
  refl, append-nil, map, ◌∙◌, ◌++◌, arith, some, none, ◌∷◌, zero, length, [], ◌≡◌, suc, false, Text,
  ℕ, List,
}
use edge_device_webrtc.Signaling.Order.{out-try_write_stream, out, written}

module _ {J : Type 0} where
  -- The SDK resolves the outstanding write, and the queued callback runs.
  abbrev pub acknowledge : Stream J → Stream J
  acknowledge s = stream_write_callback (record s { write_future = false })

  abbrev pub acknowledge_times : ℕ → Stream J → Stream J
  acknowledge_times zero s = s
  acknowledge_times (suc n) s = acknowledge_times n (acknowledge s)

  acknowledge_next :
      (s : Stream J) (next : Text) (rest : List Text)
      → s.closed ≡ false
      → s.write_buffers ≡ next ∷ rest
      → let t = acknowledge s in
        (t.closed ≡ false) × (t.write_buffers ≡ rest) × (t.write_buf ≡ some (frame next))
  unfolding stream_write_callback try_write_stream
  acknowledge_next s next rest c q = ground arith

  acknowledge_last :
      (s : Stream J)
      → s.closed ≡ false
      → s.write_buffers ≡ []
      → let t = acknowledge s in (t.closed ≡ false) × (t.write_buffers ≡ []) × (t.write_buf ≡ none)
  unfolding stream_write_callback try_write_stream
  acknowledge_last s c q = ground arith

  out-acknowledge : (s : Stream J) → out (acknowledge s) ≡ out s
  unfolding stream_write_callback
  out-acknowledge s = out-try_write_stream (record s { write_future = false; write_buf = none })

  drain :
      (q : List Text) (s : Stream J)
      → s.closed ≡ false
      → s.write_buffers ≡ q
      → let t = acknowledge_times (suc (length q)) s in
        (t.write_buffers ≡ []) × (t.write_buf ≡ none) × (out t ≡ out s)
  drain [] s c e = let l = acknowledge_last s c e in (l.1, l.2, out-acknowledge s)
  drain (next ∷ rest) s c e =
      let n = acknowledge_next s next rest c e in
      let d = drain rest (acknowledge s) n.0 n.1 in (d.0, d.1, d.2 ∙ out-acknowledge s)

  -- While the stream is open, one acknowledgement for the buffer in flight and one for each waiting
  -- object empty the queue: then nothing is in flight, nothing waits, and what has been written is
  -- what had been written before followed by the frames of the objects that waited, in order.
  pub writes_drain :
      (s : Stream J)
      → s.closed ≡ false
      → let t = acknowledge_times (suc (length s.write_buffers)) s in
        (t.write_buffers ≡ [])
        × (t.write_buf ≡ none)
        × (written t.calls ≡ written s.calls ++ map frame s.write_buffers)
  writes_drain s c =
      let d = drain s.write_buffers s c refl in
      let t = acknowledge_times (suc (length s.write_buffers)) s in
      (d.0, d.1, ground (arith, d.0, d.2, append-nil (written t.calls)))
