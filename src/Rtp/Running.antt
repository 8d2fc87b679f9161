-- ===== src/Rtp/Running.antt =====
-- When the RTP client (src/modules/rtp-client/rtp_client.cpp) runs.
use edge_device_webrtc.Rtp.Runner.{send_packets, run_round, dispatch}
use edge_device_webrtc.Rtp.Client.{
  send_packet, listen_on, thrown, called, receive_on, join, done, start, halt, stop,
  start_if_stopped, new_client, RtpTrack, remove_connection, add_connection, Direction, RtpClient,
}
use edge_device_webrtc.Prelude.{
  put_key-nonempty, put_key, ◌∙◌, none, inr, take, inl, Bool-cases, some, Option-cases, refl,
  Option, ◌++◌, Text, ◌∷◌, [], arith, false, true, not, List, is_empty, ◌≡◌, ℕ, Bool,
}

module _ {R : Type 0} (handle : R → Text → Option (R × List Text)) (fails : ℕ → Text → Bool) where
  -- The client runs, with a thread, as long as there is a connection.
  abbrev pub Running : RtpClient R → Type 0
  Running s = (s.stopped ≡ is_empty s.media_tracks) × (s.thread ≡ not s.stopped)

  -- Connections come and go and packets arrive, in any order, as long as `bind` succeeds.
  pub data Step (s : RtpClient R) : RtpClient R → Type 0 where
    adds :
        (direction : Direction) (ref : ℕ) (t : RtpTrack R) (u : RtpClient R)
        → add_connection true direction ref t s ≡ done u
        → Step s u
    removes : (ref : ℕ) → Step s (remove_connection ref s)
    receives :
        (received : Option Text) (u : RtpClient R)
        → run_round handle fails received s ≡ some u
        → Step s u

  pub data Reach (port : ℕ) : RtpClient R → Type 0 where
    created : Reach port (new_client port)
    next : {s u : RtpClient R} → Reach port s → Step s u → Reach port u

  remove_connection-Running :
      (ref : ℕ) (s : RtpClient R) → Running s → Running (remove_connection ref s)
  unfolding remove_connection stop halt join called
  remove_connection-Running ref s (h, k) = ground arith

  add_connection-Running :
      (direction : Direction) (ref : ℕ) (t : RtpTrack R) (s u : RtpClient R)
      → Running s
      → add_connection true direction ref t s ≡ done u
      → Running u
  unfolding add_connection start_if_stopped start receive_on called
  add_connection-Running direction ref t s u (h, k) e =
      ground (arith, put_key-nonempty ref t s.media_tracks)

  -- What the runner leaves alone.
  send_packets-Running :
      (track : ℕ) (ps : List Text) (s : RtpClient R)
      → ((send_packets handle fails track ps s).stopped ≡ s.stopped)
        × ((send_packets handle fails track ps s).thread ≡ s.thread)
  unfolding send_packets called
  send_packets-Running track [] s = (refl, refl)
  send_packets-Running track (p ∷ ps) s = elim (Bool-cases (fails track p)) [
    | inl h ↦ rw (h, send_packets) (send_packets-Running track ps s)
    | inr h ↦ rw (h, send_packets) (send_packets-Running track ps (called (send_packet track p) s))
  ]

  dispatch-Running :
      (d : Text) (ts : List (ℕ × RtpTrack R)) (s : RtpClient R)
      → (is_empty (dispatch handle fails d ts s).0 ≡ is_empty ts)
        × ((dispatch handle fails d ts s).1.stopped ≡ s.stopped)
        × ((dispatch handle fails d ts s).1.thread ≡ s.thread)
  unfolding dispatch
  dispatch-Running d [] s = (refl, refl, refl)
  dispatch-Running d ((ref, t) ∷ ts) s = elim (Option-cases (handle t.repacketizer d)) [
    | inl h ↦ rw (h, dispatch) (refl, (dispatch-Running d ts s).1, (dispatch-Running d ts s).2)
    | inr ((r, ps), h) ↦
        let sent = send_packets-Running t.track ps s in
        let later = dispatch-Running d ts (send_packets handle fails t.track ps s) in
        rw (h, dispatch) (refl, later.1 ∙ sent.0, later.2 ∙ sent.1)
  ]

  run_round-Running :
      (received : Option Text) (s u : RtpClient R)
      → Running s
      → run_round handle fails received s ≡ some u
      → Running u
  unfolding run_round
  run_round-Running none s u (h, k) e = absurd (ground arith)
  run_round-Running (some datagram) s u (h, k) e =
      let kept = dispatch-Running (take 2048 datagram) s.media_tracks s in ground arith

  Step-Running : {s u : RtpClient R} → Step s u → Running s → Running u
  Step-Running {s} (adds direction ref t u e) h = add_connection-Running direction ref t s u h e
  Step-Running {s} (removes ref) h = remove_connection-Running ref s h
  Step-Running {s} (receives received u e) h = run_round-Running received s u h e

  -- As long as `bind` succeeds, and operations are called one after the other, the client is stopped
  -- exactly when it has no connection, and has a thread to join exactly when it is not stopped:
  -- the first connection starts it, the removal of the last one stops it, and packets change
  -- neither.
  pub Reach-Running : (port : ℕ) {s : RtpClient R} → Reach port s → Running s
  Reach-Running port created = (refl, refl)
  Reach-Running port (next reached step) = Step-Running step (Reach-Running port reached)

module _ {R : Type 0} where
  -- The client after a start that fails: marked as running, with the new track, without a thread.
  abbrev pub unbound : ℕ → RtpTrack R → RtpClient R → RtpClient R
  unbound ref t s = record s {
    stopped = false;
    socket = true;
    media_tracks = put_key ref t s.media_tracks;
    calls = s.calls ++ listen_on s.video_port ∷ [];
  }

  -- When `bind` fails for a stopped client, the exception leaves it marked as running with the new
  -- track in place. A connection that is added after that is accepted, but neither a bind nor a
  -- thread is tried again, so that no packet reaches it.
  failed_bind_sticks :
      (bound : Bool) (first second : Direction) (ref next_ref : ℕ) (t u : RtpTrack R)
      (s : RtpClient R)
      → s.stopped ≡ true
      → (add_connection false first ref t s ≡ thrown (unbound ref t s))
        × (add_connection bound second next_ref u (unbound ref t s)
            ≡ done (
                receive_on second u.track (record (unbound ref t s) {
                  media_tracks = put_key next_ref u (put_key ref t s.media_tracks);
                })))
  unfolding add_connection start_if_stopped start called
  failed_bind_sticks bound first second ref next_ref t u s h = ground arith
