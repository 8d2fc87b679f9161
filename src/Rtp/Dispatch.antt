-- ===== src/Rtp/Dispatch.antt =====
-- Where the packets go that the RTP client receives (src/modules/rtp-client/rtp_client.cpp), with the
-- repacketizer of src/modules/rtp-repacketizer.
use edge_device_webrtc.Rtp.Runner.{send_packets, run_round, dispatch}
use edge_device_webrtc.Prelude.{
  append_assoc, true, take_all, ap, inr, inl, refl, ltb, Bool-cases, ◌≤◌, length, if◌then◌else◌,
  append-nil, [], ◌∷◌, ◌^◌, ◌++◌, some, false, ◌≡◌, ◌∙◌, ◌<◌, Option, All, List, Bool, Text, ℕ,
}
use edge_device_webrtc.Rtp.Library.{handle_packet, Repacketizer, RtpHeaderLaws, RtpHeader}
use edge_device_webrtc.Rtp.Client.{send_packet, called, RtpCall, RtpTrack, RtpClient}

module _ (rtp : RtpHeader) (fails : ℕ → Text → Bool) where
  -- `RtpRepacketizer` as the repacketizer of every track: it has no state that changes.
  abbrev pub plain : Repacketizer → Text → Option (Repacketizer × List Text)
  plain r p = some (r, handle_packet rtp r p)

  -- The packet that a track is to get.
  abbrev pub packet_for : Text → Repacketizer → Text
  packet_for d r = rtp.set_payload_type r.dst_payload_type (rtp.set_ssrc r.ssrc d)

  -- One packet to each track, in the order of the connections; a track whose `send` fails gets
  -- none.
  abbrev pub deliveries : Text → List (ℕ × RtpTrack Repacketizer) → List RtpCall
  deliveries d [] = []
  deliveries d ((ref, t) ∷ ts) =
      let rest = deliveries d ts in
      if fails t.track (packet_for d t.repacketizer)
      then rest
      else send_packet t.track (packet_for d t.repacketizer) ∷ rest

  -- A packet that belongs to its track: the payload type and SSRC are the track's, the rest is
  -- what was received.
  abbrev pub Addressed : Text → ℕ × RtpTrack Repacketizer → Type 0
  Addressed d (ref, t) =
      let p = packet_for d t.repacketizer in
      (rtp.payload_type p ≡ t.repacketizer.dst_payload_type)
      × (rtp.ssrc p ≡ t.repacketizer.ssrc)
      × (rtp.content p ≡ rtp.content d)

  -- Widths of the two fields.
  abbrev pub InRange : ℕ × RtpTrack Repacketizer → Type 0
  InRange (ref, t) = (t.repacketizer.dst_payload_type < 128) × (t.repacketizer.ssrc < 2 ^ 32)

run_round-running :
    {R : Type 0} (handle : R → Text → Option (R × List Text)) (fails : ℕ → Text → Bool) (d : Text)
    (s : RtpClient R)
    → s.stopped ≡ false
    → length d ≤ 2048
    → run_round handle fails (some d) s
      ≡ some (
          if ltb (length d) 12 then s else record (dispatch handle fails d s.media_tracks s).1 {
            media_tracks = (dispatch handle fails d s.media_tracks s).0;
          })
unfolding run_round
run_round-running handle fails d s run small = rw (run, take_all 2048 d small) refl

long_enough :
    {R : Type 0} (s : RtpClient R) (cs : List RtpCall) (short : Bool)
    → (if short then s else record s { calls = s.calls ++ cs })
      ≡ record s { calls = s.calls ++ (if short then [] else cs) }
long_enough s cs true = rw (append-nil s.calls) refl
long_enough s cs false = refl

module _ (rtp : RtpHeader) (laws : RtpHeaderLaws rtp) (fails : ℕ → Text → Bool) where
  packet_for-Addressed :
      (d : Text) (e : ℕ × RtpTrack Repacketizer) → InRange rtp fails e → Addressed rtp fails d e
  packet_for-Addressed d (ref, t) (small, wide) =
      let r = t.repacketizer in
      let q = rtp.set_ssrc r.ssrc d in
      (
        laws.payload_type_set r.dst_payload_type q small,
        laws.ssrc_kept r.dst_payload_type q ∙ laws.ssrc_set r.ssrc d wide,
        laws.content_kept_type r.dst_payload_type q ∙ laws.content_kept_ssrc r.ssrc d,
      )

  All-Addressed :
      (d : Text) (ts : List (ℕ × RtpTrack Repacketizer))
      → All (InRange rtp fails) ts
      → All (Addressed rtp fails d) ts
  All-Addressed d [] h = tt
  All-Addressed d (e ∷ ts) (h, rest) = (packet_for-Addressed d e h, All-Addressed d ts rest)

  send_packets-one :
      (track : ℕ) (p : Text) (s : RtpClient Repacketizer)
      → send_packets (plain rtp fails) fails track (p ∷ []) s
        ≡ record s { calls = s.calls ++ (if fails track p then [] else send_packet track p ∷ []) }
  unfolding send_packets called
  send_packets-one track p s = elim (Bool-cases (fails track p)) [
    | inl h ↦ rw (h, append-nil s.calls) refl
    | inr h ↦ rw h refl
  ]

  sent_first :
      (b : Bool) (c : RtpCall) (cs : List RtpCall)
      → (if b then [] else c ∷ []) ++ cs ≡ (if b then cs else c ∷ cs)
  sent_first true c cs = refl
  sent_first false c cs = refl

  dispatch-deliveries :
      (d : Text) (ts : List (ℕ × RtpTrack Repacketizer)) (s : RtpClient Repacketizer)
      → dispatch (plain rtp fails) fails d ts s
        ≡ (ts, record s { calls = s.calls ++ deliveries rtp fails d ts })
  unfolding dispatch handle_packet
  dispatch-deliveries d [] s = rw (append-nil s.calls) refl
  dispatch-deliveries d ((ref, t) ∷ ts) s =
      let p = packet_for rtp fails d t.repacketizer in
      let sent = if fails t.track p then [] else send_packet t.track p ∷ [] in
      let q = record s { calls = s.calls ++ sent } in
      rw (send_packets-one t.track p s, dispatch-deliveries d ts q)
        (ap (λ cs. ((ref, t) ∷ ts, record s { calls = cs }))
          (append_assoc s.calls sent (deliveries rtp fails d ts)
            ∙ ap (λ l. s.calls ++ l)
                (sent_first (fails t.track p) (send_packet t.track p) (deliveries rtp fails d ts))))

  -- Where every track has the plain `RtpRepacketizer`, as the audio of the demo program does but not
  -- its video, which is repacketized as H264 unless that is disabled: a datagram of the size of a
  -- packet, received by a running client, is sent once to each track, in the order of the
  -- connections and with nothing else sent, skipping the tracks on which `send` fails; each of
  -- these packets has the payload type and the SSRC of its track and otherwise the received
  -- content. Shorter datagrams are dropped.
  pub run_round-deliveries :
      (d : Text) (s : RtpClient Repacketizer)
      → s.stopped ≡ false
      → length d ≤ 2048
      → All (InRange rtp fails) s.media_tracks
      → (run_round (plain rtp fails) fails (some d) s
          ≡ some (record s {
            calls =
                s.calls
                ++ (if ltb (length d) 12 then [] else deliveries rtp fails d s.media_tracks);
          }))
        × All (Addressed rtp fails d) s.media_tracks
  unfolding run_round
  run_round-deliveries d s run small range = (
    run_round-running (plain rtp fails) fails d s run small
        ∙ ap (λ r. some (if ltb (length d) 12 then s else record r.1 { media_tracks = r.0 }))
            (dispatch-deliveries d s.media_tracks s)
        ∙ ap some (long_enough s (deliveries rtp fails d s.media_tracks) (ltb (length d) 12)),
    All-Addressed d s.media_tracks range,
  )
