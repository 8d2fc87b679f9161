-- ===== src/StreamChannel/Forwards.antt =====
-- What the data channel of a Nabto stream is given.
use mathlib.Core.Path.{subst}
use edge_device_webrtc.Prelude.{
  is_some, ◌&&◌, if◌then◌else◌, ◌+◌, ◌∙◌, some_injective, refl, append-nil, ap, ◌≢◌, sym, false,
  Option, ◌∷◌, true, Bool, ◌≡◌, some, ◌++◌, none, [], Text, List,
}
use edge_device_webrtc.StreamChannel.{
  start_read, run_channel_job, ChannelJob, data_channel_closed, read_failed, read_eof, read_data,
  end_stream, stream_read_cb, forward, stream_opened, start_reading, opened_channel, StreamChannel,
}

-- The calls of the SDK, the event queue and libdatachannel in any order, as far as they can come:
-- `log` is the data that the SDK has read until then.
pub data Reach : List Text → StreamChannel → Type 0 where
  created : Reach [] opened_channel
  opens :
      {log : List Text} {s : StreamChannel} (ok : Bool)
      → Reach log s
      → s.opening ≡ true
      → Reach log (stream_opened ok s)
  reads :
      {log : List Text} {s : StreamChannel} (d : Text)
      → Reach log s
      → s.reading ≡ true
      → Reach (log ++ d ∷ []) (stream_read_cb (read_data d) s)
  ends :
      {log : List Text} {s : StreamChannel}
      → Reach log s
      → s.reading ≡ true
      → Reach log (stream_read_cb read_eof s)
  fails :
      {log : List Text} {s : StreamChannel}
      → Reach log s
      → s.reading ≡ true
      → Reach log (stream_read_cb read_failed s)
  closes : {log : List Text} {s : StreamChannel} → Reach log s → Reach log (data_channel_closed s)
  runs :
      {log : List Text} {s t : StreamChannel} (j : ChannelJob)
      → Reach log s
      → s.posted ≡ some j
      → run_channel_job j s ≡ some t
      → Reach log t

-- What has been read and not yet forwarded.
abbrev pub waiting : Option ChannelJob → Text → List Text
waiting (some forward) d = d ∷ []
waiting _ d = []

record Inv (log : List Text) (s : StreamChannel) : Type 0 where
  forwards : s.sent ++ waiting s.posted s.buffer ≡ log
  while_reading : s.reading ≡ true → (s.posted ≡ none) × (s.opening ≡ false)
  while_opening : s.opening ≡ true → s.posted ≡ none

-- While no job is posted everything has been forwarded.
all_sent : (log : List Text) (s : StreamChannel) → Inv log s → s.posted ≡ none → s.sent ≡ log
all_sent log s h e =
    sym (append-nil s.sent) ∙ sym (ap (λ j. s.sent ++ waiting j s.buffer) e) ∙ h.forwards

-- A job leaves a state in which no job is posted.
idle_Inv :
    (log : List Text) (s : StreamChannel)
    → s.sent ≡ log
    → s.posted ≡ none
    → s.opening ≡ false
    → Inv log s
idle_Inv log s hs hp ho = record {
  forwards = ap (λ j. s.sent ++ waiting j s.buffer) hp ∙ append-nil s.sent ∙ hs;
  while_reading = λ e. (hp, ho);
  while_opening = λ e. hp;
}

-- What is posted when neither a read nor the opening is pending.
job_Inv :
    (log : List Text) (s : StreamChannel)
    → s.sent ++ waiting s.posted s.buffer ≡ log
    → s.reading ≡ false
    → s.opening ≡ false
    → Inv log s
job_Inv log s hs hr ho = record {
  forwards = hs;
  while_reading = λ e. absurd (let bad : true ≡ false = sym e ∙ hr in cc);
  while_opening = λ e. absurd (let bad : true ≡ false = sym e ∙ ho in cc);
}

not_true : (b : Bool) → b ≢ true → b ≡ false
not_true true h = absurd (h refl)
not_true false h = refl

-- With a job posted, neither is pending.
not_opening :
    (j : ChannelJob) (log : List Text) (s : StreamChannel)
    → Inv log s
    → s.posted ≡ some j
    → s.opening ≡ false
not_opening j log s h e =
    not_true s.opening (λ o. let bad : none ≡ some j = sym (h.while_opening o) ∙ e in cc)

guarded : (b : Bool) {x t : StreamChannel} → (if b then some x else none) ≡ some t → x ≡ t
guarded true h = some_injective h
guarded false h = absurd cc

run_job-Inv :
    (j : ChannelJob) (log : List Text) (s t : StreamChannel)
    → Inv log s
    → s.posted ≡ some j
    → run_channel_job j s ≡ some t
    → Inv log t
unfolding run_channel_job start_read
run_job-Inv start_reading log s t h e r = subst (Inv log) (some_injective r) (
    idle_Inv log (record s { reading = true; posted = none })
      (sym (append-nil s.sent) ∙ sym (ap (λ j. s.sent ++ waiting j s.buffer) e) ∙ h.forwards) refl
      (not_opening start_reading log s h e))
run_job-Inv forward log s t h e r = subst (Inv log) (guarded s.channel r) (
    idle_Inv log (record s { reading = true; posted = none; sent = s.sent ++ s.buffer ∷ [] })
      (sym (ap (λ j. s.sent ++ waiting j s.buffer) e) ∙ h.forwards) refl
      (not_opening forward log s h e))
run_job-Inv end_stream log s t h e r = subst (Inv log) (guarded s.channel r) (
    idle_Inv log (record s { posted = none; channel = false; closes = s.closes + 1 })
      (sym (append-nil s.sent) ∙ sym (ap (λ j. s.sent ++ waiting j s.buffer) e) ∙ h.forwards) refl
      (not_opening end_stream log s h e))

after_opening :
    (ok : Bool) (sent : List Text) (d : Text)
    → sent ++ waiting (if ok then some start_reading else none) d ≡ sent
after_opening true sent d = append-nil sent
after_opening false sent d = append-nil sent

Reach-Inv : (log : List Text) (s : StreamChannel) → Reach log s → Inv log s
unfolding stream_opened stream_read_cb data_channel_closed
Reach-Inv _ _ created = record {
  forwards = refl;
  while_reading = λ e. absurd cc;
  while_opening = λ e. refl;
}
Reach-Inv log _ (opens {s = s} ok r e) =
    let h = Reach-Inv log s r in
    job_Inv log (stream_opened ok s)
      (after_opening ok s.sent s.buffer ∙ all_sent log s h (h.while_opening e))
      (not_true s.reading (λ b. let bad : true ≡ false = sym e ∙ (h.while_reading b).1 in cc)) refl
Reach-Inv _ _ (reads {log} {s} d r e) =
    let h = Reach-Inv log s r in
    job_Inv (log ++ d ∷ []) (stream_read_cb (read_data d) s)
      (ap (λ l. l ++ d ∷ []) (all_sent log s h (h.while_reading e).0)) refl (h.while_reading e).1
Reach-Inv log _ (ends {s = s} r e) =
    let h = Reach-Inv log s r in
    job_Inv log (stream_read_cb read_eof s)
      (append-nil s.sent ∙ all_sent log s h (h.while_reading e).0) refl (h.while_reading e).1
Reach-Inv log _ (fails {s = s} r e) =
    let h = Reach-Inv log s r in
    idle_Inv log (stream_read_cb read_failed s) (all_sent log s h (h.while_reading e).0)
      (h.while_reading e).0 (h.while_reading e).1
Reach-Inv log _ (closes {s = s} r) =
    let h = Reach-Inv log s r in
    record {
      forwards = h.forwards;
      while_reading = h.while_reading;
      while_opening = h.while_opening;
    }
Reach-Inv log t (runs {s = s} j r e h) = run_job-Inv j log s t (Reach-Inv log s r) e h

unread : (b : Bool) (o : Option ChannelJob) → (b ≡ true → o ≡ none) → (b && is_some o) ≡ false
unread true o h = ap is_some (h refl)
unread false o h = refl

-- However the callbacks, the jobs and the end of the data channel are interleaved, the data channel
-- has been given the data that the SDK has read, in order and once, up to the last piece, which
-- waits for its job; while a read is pending no piece waits.
pub Reach-forwards :
    (log : List Text) (s : StreamChannel)
    → Reach log s
    → (s.sent ++ waiting s.posted s.buffer ≡ log) × ((s.reading && is_some s.posted) ≡ false)
Reach-forwards log s r =
    let h = Reach-Inv log s r in
    (h.forwards, unread s.reading s.posted (λ e. (h.while_reading e).0))
