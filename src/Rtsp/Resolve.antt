-- ===== src/Rtsp/Resolve.antt =====
-- Who calls the callback of `start` in src/modules/rtsp-client/rtsp_client.cpp: `resolveStart` alone.
pub mod Played
pub mod Once
use edge_device_webrtc.Rtsp.Setup.{perform_setup_req}
use edge_device_webrtc.Rtsp.Describe.{
  Described, after_exchange, use_digest, use_basic, receive, send_describe, exchange, authenticate,
}
use edge_device_webrtc.Rtsp.Client.{
  setup, request, stream_uri, perform, set_digest_header, Opt, set_opts, resolve_start, CurlOps,
  Client,
}
use edge_device_webrtc.Prelude.{
  zero, arith, ◌∙◌, if◌then◌else◌, ap, refl, codes, [], ◌⊎◌, ◌==◌, ◌++◌, suc, is_empty, ◌∷◌, ℕ,
  true, inr, false, Bool-cases, ◌≡◌, inl, Text, Option, Bool, List,
}

-- The callback of `s` is set as that of `t`, and has been called as often.
pub record Quiet {E : Type 0} (s t : Client E) : Type 0 where
  pub set : t.start_cb ≡ s.start_cb
  pub calls : t.resolved ≡ s.resolved

pub Quiet-trans : {E : Type 0} {s t u : Client E} → Quiet s t → Quiet t u → Quiet s u
Quiet-trans p q = record { set = q.set ∙ p.set; calls = q.calls ∙ p.calls }

-- One more call than in `old`, and the callback is not set any more.
pub record Answered {E : Type 0} (old : List (Option Text)) (s : Client E) : Type 0 where
  pub cleared : s.start_cb ≡ false
  pub error : Option Text
  pub called : s.resolved ≡ old ++ error ∷ []

pub data Pending {E : Type 0} (old : List (Option Text)) (s : Client E) : Type 0 where
  waiting : s.start_cb ≡ true → s.resolved ≡ old → Pending old s
  answered : Answered old s → Pending old s

pub resolve_start-Answered :
    {E : Type 0} (error : Option Text) (old : List (Option Text)) (s : Client E)
    → Pending old s
    → Answered old (resolve_start error s)
unfolding resolve_start
resolve_start-Answered error old s (waiting set calls) =
    rw set (record { cleared = refl; error = error; called = ap (λ l. l ++ error ∷ []) calls })
resolve_start-Answered error old s (answered a) =
    rw a.cleared (record { cleared = refl; error = a.error; called = a.called })

after_exchange-Quiet :
    {E : Type 0} (answer : Text ⊎ ℕ) (s t : Client E) (again : Bool) (u : Client E)
    (retried : Described × Client E)
    → Quiet s t
    → Quiet s u
    → Quiet s retried.1
    → Quiet s (after_exchange answer t again u retried).1
unfolding after_exchange
after_exchange-Quiet (inl error) s t again u retried qt qu qr = qt
after_exchange-Quiet (inr status) s t again u retried qt qu qr = ground arith

module _ {E : Type 0} (curl : CurlOps E) where
  pub set_opts-Quiet : (os : List Opt) (s : Client E) → Quiet s (set_opts curl os s).1
  unfolding set_opts
  set_opts-Quiet [] s = record { set = refl; calls = refl }
  set_opts-Quiet (o ∷ os) s = elim (Bool-cases ((curl.setopt o s.env).0 == 0)) [
    | inl ok ↦
        let q = set_opts-Quiet os (record s { env = (curl.setopt o s.env).1 }) in
        rw (ok, set_opts) (record { set = q.set; calls = q.calls })
    | inr bad ↦ rw (bad, set_opts) (record { set = refl; calls = refl })
  ]

module _ {E : Type 0} (curl : CurlOps E) (md5 : Text → Text) where
  pub set_digest_header-Quiet :
      (method uri : Text) (s : Client E) → Quiet s (set_digest_header curl md5 method uri s).1
  unfolding set_digest_header
  set_digest_header-Quiet method uri s =
      elim (Bool-cases (is_empty (md5 (method ++ codes ":" ++ uri)))) [
        | inl failed ↦ rw failed (record { set = refl; calls = refl })
        | inr hashed ↦ ground (arith, set_opts-Quiet curl)
      ]

  pub signed-Quiet :
      (c : Bool) (method uri : Text) (s : Client E)
      → Quiet s (if c then set_digest_header curl md5 method uri s else (true, s)).1
  signed-Quiet true method uri s = set_digest_header-Quiet method uri s
  signed-Quiet false method uri s = record { set = refl; calls = refl }

  pub perform_setup_req-Quiet :
      (uri transport_ : Text) (s : Client E)
      → Quiet s (perform_setup_req curl md5 uri transport_ s).1
  unfolding perform_setup_req perform
  perform_setup_req-Quiet uri transport_ s = ground (
    arith,
    set_opts-Quiet curl,
    set_digest_header-Quiet (codes "SETUP") uri
        (set_opts curl (stream_uri uri ∷ request setup ∷ []) s).1,
  )

module _ {E : Type 0} (curl : CurlOps E) where
  pub exchange-Quiet : (s : Client E) → Quiet s (exchange curl s).1
  unfolding exchange receive perform
  exchange-Quiet s = ground (arith, set_opts-Quiet curl)

module _ {E : Type 0} (curl : CurlOps E) (md5 base64 : Text → Text) where
  use_digest-Quiet : (s : Client E) → Quiet s (use_digest curl md5 base64 s).1
  unfolding use_digest
  use_digest-Quiet s = ground (arith, set_digest_header-Quiet curl md5)

  authenticate-Quiet : (s : Client E) → Quiet s (authenticate curl md5 base64 s).1
  unfolding authenticate use_basic
  authenticate-Quiet s = ground (arith, set_opts-Quiet curl, use_digest-Quiet s)

  pub send_describe-Quiet :
      (fuel : ℕ) (s : Client E) → Quiet s (send_describe curl md5 base64 fuel s).1
  unfolding send_describe
  send_describe-Quiet zero s = record { set = refl; calls = refl }
  send_describe-Quiet (suc fuel) s =
      let t = exchange-Quiet curl s in
      let u = Quiet-trans t (authenticate-Quiet (exchange curl s).1) in
      let again = (authenticate curl md5 base64 (exchange curl s).1).1 in
      after_exchange-Quiet (exchange curl s).0 s (exchange curl s).1 _ again _ t u
        (Quiet-trans u (send_describe-Quiet fuel again))
