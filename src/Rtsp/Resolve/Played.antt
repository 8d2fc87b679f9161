-- ===== src/Rtsp/Resolve/Played.antt =====
-- What becomes of the callback of `start` from the PLAY request on, in `setupRtsp` of
-- src/modules/rtsp-client/rtsp_client.cpp.
use edge_device_webrtc.Rtsp.Resolve.{
  resolve_start-Answered, signed-Quiet, answered, waiting, set_opts-Quiet, Answered, Quiet, Pending,
}
use edge_device_webrtc.Rtsp.Setup.{
  enters_run, run_tcp, literal_plus, play_answered, check_created, bad_status, undefined, uncaught,
  returned, play_session, perform_play, finish_play, Ending,
}
use edge_device_webrtc.Rtsp.Client.{
  set_digest_header, play, request, stream_uri, set_opts, Answer, range, perform, Client, CurlOps,
}
use edge_device_webrtc.Prelude.{
  if◌then◌else◌, refl, ltb, true, inr, inl, ◌==◌, false, Option-cases, ℕ, some, Bool-cases, Bool,
  [], ◌∷◌, none, codes, ◌∙◌, Text, Option, List,
}

-- An exception or undefined behaviour may have come before the call.
abbrev pub AnsweredAt : {E : Type 0} → List (Option Text) → Ending E → Type 0
AnsweredAt old (returned s) = Answered old s
AnsweredAt old (enters_run s) = Answered old s
AnsweredAt old (uncaught s) = Unit
AnsweredAt old (undefined s) = Unit

pub quiet-Pending :
    {E : Type 0} (old : List (Option Text)) (s t : Client E)
    → Quiet s t
    → Pending old s
    → Pending old t
quiet-Pending old s t q (waiting set calls) = waiting (q.set ∙ set) (q.calls ∙ calls)
quiet-Pending old s t q (answered a) =
    answered (record { cleared = q.set ∙ a.cleared; error = a.error; called = q.calls ∙ a.called })

pub either_way :
    {A : Type 0} → (P : A → Type 0) (b : Bool) (x y : A) → P x → P y → P (if b then x else y)
either_way P true x y p q = p
either_way P false x y p q = q

run_tcp-AnsweredAt :
    {E : Type 0} (old : List (Option Text)) (s : Client E)
    → Answered old s
    → AnsweredAt old (run_tcp s)
unfolding run_tcp
run_tcp-AnsweredAt old s a =
    either_way (AnsweredAt old) s.tcp_client (enters_run s) (returned s) a a

module _ {E : Type 0} (curl : CurlOps E) (md5 : Text → Text) (old : List (Option Text)) where
  finish_play-AnsweredAt : (s : Client E) → Pending old s → AnsweredAt old (finish_play curl md5 s)
  unfolding finish_play
  finish_play-AnsweredAt s p =
      let q = quiet-Pending old s _ (set_opts-Quiet curl (range none ∷ []) s) p in
      elim (Bool-cases ((set_opts curl (range none ∷ []) s).0 == 0)) [
        | inl ok ↦
            let a = resolve_start-Answered none old (set_opts curl (range none ∷ []) s).1 q in
            rw (ok, finish_play) (run_tcp-AnsweredAt old _ a)
        | inr bad ↦
            rw (bad, finish_play)
              (resolve_start-Answered _ old (set_opts curl (range none ∷ []) s).1 q)
      ]

  bad_status-AnsweredAt :
      (status : ℕ) (s : Client E) → Pending old s → AnsweredAt old (bad_status curl md5 status s)
  unfolding bad_status
  bad_status-AnsweredAt status s p =
      elim (Option-cases
        (literal_plus (codes "RTSP PLAY request failed with status code: ") status)) [
          | inl past ↦ rw (past, bad_status) tt
          | inr (msg, inside) ↦ rw (inside, bad_status) (resolve_start-Answered (some msg) old s p)
        ]

  play_answered-AnsweredAt :
      (answer : Answer) (s : Client E)
      → Pending old s
      → AnsweredAt old (play_answered curl md5 answer s)
  unfolding play_answered
  play_answered-AnsweredAt answer s p = elim (Bool-cases (answer.res == 0)) [
    | inr failed ↦ rw (failed, play_answered) (resolve_start-Answered _ old s p)
    | inl ok ↦ elim (Bool-cases (ltb 299 answer.status)) [
      | inl bad ↦ rw (ok, bad, play_answered) (bad_status-AnsweredAt answer.status s p)
      | inr good ↦ rw (ok, good, play_answered) (finish_play-AnsweredAt s p)
    ]
  ]

  perform_play-AnsweredAt :
      (signed : Bool × Client E)
      → Pending old signed.1
      → AnsweredAt old (perform_play curl md5 signed)
  unfolding perform_play perform
  perform_play-AnsweredAt (false, s) p = resolve_start-Answered _ old s p
  perform_play-AnsweredAt (true, s) p =
      play_answered-AnsweredAt (perform curl s).0 (perform curl s).1
        (quiet-Pending old s _ (record { set = refl; calls = refl }) p)

  check_created-Pending :
      (created : ℕ × Client E)
      → Pending old created.1
      → Pending old (check_created curl md5 created)
  unfolding check_created
  check_created-Pending (res, s) p = elim (Bool-cases (res == 0)) [
    | inl ok ↦ rw ok p
    | inr bad ↦ rw bad (answered (resolve_start-Answered _ old s p))
  ]

  pub play_session-AnsweredAt :
      (s : Client E) → Pending old s → AnsweredAt old (play_session curl md5 s)
  unfolding play_session
  play_session-AnsweredAt s p =
      let os = stream_uri s.session_url ∷ range (some (codes "npt=now-")) ∷ request play ∷ [] in
      let created = set_opts curl os s in
      let u = check_created curl md5 created in
      perform_play-AnsweredAt
        (if u.is_digest
          then set_digest_header curl md5 (codes "PLAY") u.session_url u
          else (true, u))
        (quiet-Pending old u _ (signed-Quiet curl md5 u.is_digest (codes "PLAY") u.session_url u)
          (check_created-Pending created (quiet-Pending old s _ (set_opts-Quiet curl os s) p)))
