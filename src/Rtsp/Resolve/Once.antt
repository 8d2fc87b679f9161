-- ===== src/Rtsp/Resolve/Once.antt =====
-- How often `setupRtsp` of src/modules/rtsp-client/rtsp_client.cpp calls the callback of `start`.
use edge_device_webrtc.Rtsp.Describe.{
  described, out_of_fuel, refused, parse_describe_headers, Described, send_describe,
}
use edge_device_webrtc.Rtsp.Sdp.{
  control_of, thrown, taken, matched, Taken, Negotiators, parse_sdp, MediaSection, take_media,
  take_all_media, Description,
}
use edge_device_webrtc.Rtsp.Resolve.{
  send_describe-Quiet, Quiet-trans, resolve_start-Answered, perform_setup_req-Quiet, waiting,
  Answered, Quiet, Pending,
}
use edge_device_webrtc.Rtsp.Setup.{
  setup_taken, then_run, rtcp_started, enters_run, setup_described, after_describe, setup_rtsp,
  start_video, start_audio, setup_block, undefined, uncaught, returned, setup_video, setup_streams,
  setup_audio, play_session, Ending,
}
use edge_device_webrtc.Rtsp.Client.{Client, CurlOps}
use edge_device_webrtc.Prelude.{
  if◌then◌else◌, text_eq, ◌≡◌, refl, true, inr, inl, ◌&&◌, false, Option-cases, ℕ, some, is_empty,
  Bool-cases, Bool, [], ◌∷◌, none, codes, Text, Option, List,
}
use edge_device_webrtc.Rtsp.Resolve.Played.{
  AnsweredAt, quiet-Pending, either_way, play_session-AnsweredAt,
}

some_eq : {A : Type 0} {a b : A} → some a ≡ some b → a ≡ b
some_eq h = cc

-- A stream that is started is pending as before, or an exception is thrown.
abbrev Starts : {E : Type 0} → Client E → Ending E → Type 0
Starts s (returned t) = Quiet s t
Starts s (enters_run t) = ⊥
Starts s (uncaught t) = Unit
Starts s (undefined t) = Unit

module _ {E : Type 0} (curl : CurlOps E) (md5 : Text → Text) where
  rtcp_started-Starts :
      (ok : Bool) (s t : Client E) → Quiet s t → Starts s (rtcp_started curl md5 ok t)
  rtcp_started-Starts true s t q = q
  rtcp_started-Starts false s t q = tt

  start_video-Starts : (binds : ℕ → Bool) (s : Client E) → Starts s (start_video curl md5 binds s)
  unfolding start_video
  start_video-Starts binds s =
      either_way (Starts s) s.prefer_tcp _ _ (record { set = refl; calls = refl })
        (rtcp_started-Starts _ s _ (record { set = refl; calls = refl }))

  start_audio-Starts : (binds : ℕ → Bool) (s : Client E) → Starts s (start_audio curl md5 binds s)
  unfolding start_audio
  start_audio-Starts binds s =
      either_way (Starts s) s.prefer_tcp _ _ (record { set = refl; calls = refl })
        (rtcp_started-Starts _ s _ (record { set = refl; calls = refl }))

module _ {E : Type 0} (curl : CurlOps E) (md5 : Text → Text) (old : List (Option Text)) where
  then_run-AnsweredAt :
      (s : Client E) (e : Ending E) (run : Client E → Ending E)
      → Starts s e
      → Pending old s
      → ((t : Client E) → Pending old t → AnsweredAt old (run t))
      → AnsweredAt old (then_run curl md5 e run)
  unfolding then_run
  then_run-AnsweredAt s (returned t) run q p f = f t (quiet-Pending old s t q p)
  then_run-AnsweredAt s (enters_run t) run q p f = absurd q
  then_run-AnsweredAt s (uncaught t) run q p f = tt
  then_run-AnsweredAt s (undefined t) run q p f = tt

  setup_block-AnsweredAt :
      (skip : Bool) (s : Client E) (r : Option Text × Client E)
      (start_stream run : Client E → Ending E)
      → Quiet s r.1
      → ((t : Client E) → Starts t (start_stream t))
      → Pending old s
      → ((t : Client E) → Pending old t → AnsweredAt old (run t))
      → AnsweredAt old (setup_block curl md5 skip s r start_stream run)
  unfolding setup_block
  setup_block-AnsweredAt true s r start_stream run q starts p f = f s p
  setup_block-AnsweredAt false s (some e, t) start_stream run q starts p f =
      resolve_start-Answered (some e) old t (quiet-Pending old s t q p)
  setup_block-AnsweredAt false s (none, t) start_stream run q starts p f =
      then_run-AnsweredAt t (start_stream t) run (starts t) (quiet-Pending old s t q p) f

  module _ (binds : ℕ → Bool) where
    setup_audio-AnsweredAt :
        (s : Client E)
        → Pending old s
        → AnsweredAt old (setup_audio curl md5 binds s (play_session curl md5))
    unfolding setup_audio
    setup_audio-AnsweredAt s p =
        setup_block-AnsweredAt _ s _ (start_audio curl md5 binds) (play_session curl md5)
          (perform_setup_req-Quiet curl md5 s.audio_url _ s) (start_audio-Starts curl md5 binds) p
          (play_session-AnsweredAt curl md5 old)

    setup_streams-AnsweredAt :
        (s : Client E) → Pending old s → AnsweredAt old (setup_streams curl md5 binds s)
    unfolding setup_streams setup_video
    setup_streams-AnsweredAt s p =
        elim (Bool-cases (is_empty s.video_url && is_empty s.audio_url)) [
          | inl none_offered ↦ rw none_offered (resolve_start-Answered _ old s p)
          | inr offered ↦ rw offered (
              setup_block-AnsweredAt _ s _ (start_video curl md5 binds) _
                (perform_setup_req-Quiet curl md5 s.video_url _ s)
                (start_video-Starts curl md5 binds) p setup_audio-AnsweredAt)
        ]

module _ {E : Type 0} (curl : CurlOps E) (md5 base64 : Text → Text)
    (parse : Text → Option Description) (nego : Negotiators) (binds : ℕ → Bool) where
  -- Neither the callback nor its results change, whether or not an exception is thrown.
  QuietTaken : Client E → Taken E → Type 0
  QuietTaken s (taken t) = Quiet s t
  QuietTaken s (thrown t) = Unit

  matched-Quiet :
      (throws : Bool) (s t : Client E) → Quiet s t → QuietTaken s (matched nego throws t)
  unfolding QuietTaken
  matched-Quiet true s t q = tt
  matched-Quiet false s t q = q

  take_media-Quiet : (m : Option MediaSection) (s : Client E) → QuietTaken s (take_media nego s m)
  unfolding take_media QuietTaken
  take_media-Quiet none s = record { set = refl; calls = refl }
  take_media-Quiet (some m) s = elim (Bool-cases (text_eq m.type_ (codes "video"))) [
    | inl video ↦ rw video (matched-Quiet _ s _ (record { set = refl; calls = refl }))
    | inr other ↦ elim (Bool-cases (text_eq m.type_ (codes "audio"))) [
      | inl audio ↦ rw (other, audio) (matched-Quiet _ s _ (record { set = refl; calls = refl }))
      | inr neither ↦ rw (other, neither) (record { set = refl; calls = refl })
    ]
  ]

  Quiet-then : (s t : Client E) (r : Taken E) → Quiet s t → QuietTaken t r → QuietTaken s r
  unfolding QuietTaken
  Quiet-then s t (taken u) q p = Quiet-trans q p
  Quiet-then s t (thrown u) q p = tt

  take_all_media-Quiet :
      (ms : List (Option MediaSection)) (s : Client E) (r : Taken E)
      → QuietTaken s r
      → QuietTaken s (take_all_media nego ms r)
  unfolding take_all_media QuietTaken
  take_all_media-Quiet ms s (thrown t) q = tt
  take_all_media-Quiet [] s (taken t) q = q
  take_all_media-Quiet (m ∷ ms) s (taken t) q =
      take_all_media-Quiet ms s (take_media nego t m)
        (Quiet-then s t (take_media nego t m) q (take_media-Quiet m t))

  setup_taken-AnsweredAt :
      (old : List (Option Text)) (s : Client E) (r : Taken E)
      → Pending old s
      → QuietTaken s r
      → AnsweredAt old (setup_taken curl md5 base64 parse nego binds r)
  unfolding setup_taken QuietTaken
  setup_taken-AnsweredAt old s (thrown t) p q = tt
  setup_taken-AnsweredAt old s (taken t) p q =
      setup_streams-AnsweredAt curl md5 old binds t (quiet-Pending old s t q p)

  parse_sdp-Quiet : (desc : Description) (s : Client E) → QuietTaken s (parse_sdp nego desc s)
  unfolding parse_sdp QuietTaken
  parse_sdp-Quiet desc s =
      let url = control_of s.content_base desc.attributes s.session_url in
      let t : Client E = record s { session_url = if is_empty url then s.content_base else url } in
      take_all_media-Quiet desc.media s (taken t) (record { set = refl; calls = refl })

  setup_described-AnsweredAt :
      (old : List (Option Text)) (s : Client E)
      → Pending old s
      → AnsweredAt old (setup_described curl md5 base64 parse nego binds s)
  unfolding setup_described parse_describe_headers parse_sdp QuietTaken
  setup_described-AnsweredAt old s p = elim (Option-cases (parse s.read_buffer)) [
    | inl no_sdp ↦ rw (no_sdp, setup_described) tt
    | inr (desc, parsed) ↦
        rw (parsed, setup_described)
          (setup_taken-AnsweredAt old (parse_describe_headers s) _
            (quiet-Pending old s _ (record { set = refl; calls = refl }) p)
            (parse_sdp-Quiet desc (parse_describe_headers s)))
  ]

  after_describe-AnsweredAt :
      (old : List (Option Text)) (r : Described × Client E) (e : Ending E)
      → Pending old r.1
      → after_describe curl md5 base64 parse nego binds r ≡ some e
      → AnsweredAt old e
  unfolding after_describe
  after_describe-AnsweredAt old (out_of_fuel, s) e p h = absurd cc
  after_describe-AnsweredAt old (refused error, s) e p h =
      rw⁻¹ (some_eq h) (resolve_start-Answered (some error) old s p)
  after_describe-AnsweredAt old (described, s) e p h =
      rw⁻¹ (some_eq h) (setup_described-AnsweredAt old s p)

  pub setup_rtsp-AnsweredAt :
      (fuel : ℕ) (s : Client E) (e : Ending E)
      → s.start_cb ≡ true
      → setup_rtsp curl md5 base64 parse nego binds fuel s ≡ some e
      → AnsweredAt s.resolved e
  unfolding setup_rtsp
  setup_rtsp-AnsweredAt fuel s e set h =
      after_describe-AnsweredAt s.resolved (send_describe curl md5 base64 fuel s) e
        (quiet-Pending s.resolved s _ (send_describe-Quiet curl md5 base64 fuel s)
          (waiting set refl))
        h

  -- Where `setupRtsp` is called with the callback set and returns, it has called it just once.
  setup_rtsp_answers_once :
      (fuel : ℕ) (s t : Client E)
      → s.start_cb ≡ true
      → setup_rtsp curl md5 base64 parse nego binds fuel s ≡ some (returned t)
      → Answered s.resolved t
  setup_rtsp_answers_once fuel s t set h = setup_rtsp-AnsweredAt fuel s (returned t) set h
