-- ===== src/Rtsp/Authentication.antt =====
-- How often `sendDescribe` of src/modules/rtsp-client/rtsp_client.cpp calls itself.
use edge_device_webrtc.Rtsp.Strings.{between}
use edge_device_webrtc.Rtsp.Describe.{
  Described, out_of_fuel, use_basic, send_describe, authenticate, after_exchange, use_digest,
  receive, exchange,
}
use edge_device_webrtc.Prelude.{
  ap, sym, ◌∙◌, suc, find, Bool, ◌⊎◌, ◌≢◌, ℕ, is_some, [], inr, inl, ◌==◌, refl, Option-cases, true,
  codes, Bool-cases, ◌∷◌, ◌++◌, false, arith, ◌≡◌, is_empty, List, Text,
}
use edge_device_webrtc.Rtsp.Client.{perform, Opt, Client, set_digest_header, set_opts, CurlOps}

module _ {E : Type 0} (curl : CurlOps E) where
  set_opts-auth_header :
      (os : List Opt) (s : Client E) → (set_opts curl os s).1.auth_header ≡ s.auth_header
  unfolding set_opts
  set_opts-auth_header [] s = refl
  set_opts-auth_header (o ∷ os) s = elim (Bool-cases ((curl.setopt o s.env).0 == 0)) [
    | inl ok ↦
        rw (ok, set_opts) (set_opts-auth_header os (record s { env = (curl.setopt o s.env).1 }))
    | inr bad ↦ rw (bad, set_opts) refl
  ]

module _ {E : Type 0} (curl : CurlOps E) where
  exchange-auth_header : (s : Client E) → (exchange curl s).1.auth_header ≡ s.auth_header
  unfolding exchange receive perform
  exchange-auth_header s = ground (arith, set_opts-auth_header curl)

module _ {E : Type 0} (curl : CurlOps E) (md5 base64 : Text → Text) where
  set_digest_header-auth_header :
      (method uri : Text) (s : Client E)
      → is_empty (md5 (method ++ codes ":" ++ uri)) ≡ false
      → is_empty (set_digest_header curl md5 method uri s).1.auth_header ≡ false
  unfolding set_digest_header
  set_digest_header-auth_header method uri s h = rw (h, set_opts-auth_header curl) refl

  use_digest-auth_header :
      (s : Client E)
      → ((t : Text) → is_empty (md5 t) ≡ false)
      → (use_digest curl md5 base64 s).0 ≡ true
      → is_empty (use_digest curl md5 base64 s).1.auth_header ≡ false
  unfolding use_digest
  use_digest-auth_header s hashes h =
      elim (Option-cases (between (codes "realm=\"") (codes "\"") s.headers)) [
        | inl no_realm ↦ absurd (let bad : false ≡ true = rw (no_realm, use_digest) at h in cc)
        | inr (realm, has_realm) ↦
            elim (Option-cases (between (codes "nonce=\"") (codes "\"") s.headers)) [
              | inl no_nonce ↦
                  absurd (let bad : false ≡ true = rw (has_realm, no_nonce, use_digest) at h in cc)
              | inr (nonce, has_nonce) ↦
                  rw (has_realm, has_nonce, use_digest)
                    (set_digest_header-auth_header (codes "DESCRIBE")
                      (codes "rtsp://127.0.0.1:8554/video")
                      (record s {
                        is_digest = true;
                        realm = realm;
                        nonce = nonce;
                        ha1 = md5 (s.username ++ codes ":" ++ realm ++ codes ":" ++ s.password);
                      })
                      (hashes _))
            ]
      ]

  use_basic-auth_header :
      (s : Client E) → is_empty (use_basic curl md5 base64 s).auth_header ≡ false
  unfolding use_basic
  use_basic-auth_header s = rw (set_opts-auth_header curl) refl

  authenticate-auth_header :
      (s : Client E)
      → ((t : Text) → is_empty (md5 t) ≡ false)
      → (authenticate curl md5 base64 s).0 ≡ true
      → is_empty (authenticate curl md5 base64 s).1.auth_header ≡ false
  unfolding authenticate
  authenticate-auth_header s hashes h =
      elim (Bool-cases (is_some (find (codes "WWW-Authenticate: Basic") s.headers))) [
        | inl basic ↦ rw (basic, authenticate) (use_basic-auth_header s)
        | inr not_basic ↦
            elim (Bool-cases (is_some (find (codes "WWW-Authenticate: Digest") s.headers))) [
              | inl digest ↦
                  rw (not_basic, digest, authenticate)
                    (use_digest-auth_header s hashes (rw (not_basic, digest, authenticate) at h))
              | inr neither ↦
                  absurd (let bad : false ≡ true = rw (not_basic, neither, authenticate) at h in cc)
            ]
      ]

after_exchange_ends :
    {E : Type 0} (answer : Text ⊎ ℕ) (t : Client E) (again : Bool) (u : Client E)
    (retried : Described × Client E)
    → (is_empty t.auth_header ≡ true → again ≡ true → retried.0 ≢ out_of_fuel)
    → (after_exchange answer t again u retried).0 ≢ out_of_fuel
unfolding after_exchange
after_exchange_ends (inl error) t again u retried f h = cc
after_exchange_ends (inr status) t again u retried f h = ground (arith, f)

module _ {E : Type 0} (curl : CurlOps E) (md5 base64 : Text → Text) where
  -- With an authorization header, one exchange decides.
  describe_authorized :
      (fuel : ℕ) (s : Client E)
      → is_empty s.auth_header ≡ false
      → (send_describe curl md5 base64 (suc fuel) s).0 ≢ out_of_fuel
  unfolding send_describe
  describe_authorized fuel s a =
      after_exchange_ends (exchange curl s).0 (exchange curl s).1 _ _
        (send_describe curl md5 base64 fuel (authenticate curl md5 base64 (exchange curl s).1).1)
        (λ e.
          absurd
            (let bad : true ≡ false = sym e ∙ ap is_empty (exchange-auth_header curl s) ∙ a in cc))

  -- Where the hash is never empty, which it is only where it could not be computed, `sendDescribe`
  -- calls itself at most once: fuel 2 is enough.
  pub send_describe_ends :
      (s : Client E)
      → ((t : Text) → is_empty (md5 t) ≡ false)
      → (send_describe curl md5 base64 2 s).0 ≢ out_of_fuel
  unfolding send_describe
  send_describe_ends s hashes =
      let t = (exchange curl s).1 in
      let u = (authenticate curl md5 base64 t).1 in
      after_exchange_ends (exchange curl s).0 t _ u (send_describe curl md5 base64 1 u) (λ e again.
        describe_authorized 0 u (authenticate-auth_header curl md5 base64 t hashes again))
