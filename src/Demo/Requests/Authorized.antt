-- ===== src/Demo/Requests/Authorized.antt =====
-- When the demo device answers a request with an OAuth token with 201.
use edge_device_webrtc.Demo.Oauth.Verified.{jwks_answered-Verified, Verified}
use edge_device_webrtc.Demo.Coap.{is_some_format, Request}
use edge_device_webrtc.Listeners.{refusal, response}
use edge_device_webrtc.Demo.Requests.{
  handle_oauth_request, after_validation, answer, Curl, validate_token, Iam, token_validated,
}
use edge_device_webrtc.Prelude.{
  map-eq_some, ◌≤◌, ◌∙◌, ap, refl, false, Bool-cases, inr, inl, Option-cases, true, [], none, some,
  ◌≡◌, Option, Text, Bool, ℕ,
}
use edge_device_webrtc.Demo.Oauth.{write_func, setup_jwks, jwks_answered, PemOps, JwtOps, Validator}

-- The callback creates only for a valid token with the subject of a user.
token_validated-created :
    (iam : Iam) (ref : ℕ) (valid : Bool) (subject : Text)
    → token_validated iam ref (valid, subject) ≡ answer (response 201 [])
    → (valid ≡ true)
      × ((user : Text) × (iam.find_user subject ≡ some user) × (iam.authorize ref user ≡ true))
unfolding token_validated
token_validated-created iam ref false subject h = absurd cc
token_validated-created iam ref true subject h = elim (Option-cases (iam.find_user subject)) [
  | inl missing ↦
      absurd (let bad : answer (refusal 404) ≡ answer (response 201 []) = rw missing at h in cc)
  | inr (user, known) ↦ elim (Bool-cases (iam.authorize ref user)) [
    | inl granted ↦ (refl, (user, known, granted))
    | inr denied ↦
        absurd (
          let bad : answer (refusal 404) ≡ answer (response 201 []) = rw (known, denied) at h in cc)
  ]
]

after_validation-created :
    (iam : Iam) (ref : ℕ) (o : Option (Bool × Text))
    → after_validation iam ref o ≡ answer (response 201 [])
    → (subject user : Text) × (o ≡ some (true, subject))
      × (iam.find_user subject ≡ some user)
      × (iam.authorize ref user ≡ true)
unfolding after_validation
after_validation-created iam ref none h = absurd cc
after_validation-created iam ref (some (valid, subject)) h =
    let (holds, (user, known, granted)) = token_validated-created iam ref valid subject h in
    (subject, user, ap (λ b. some (b, subject)) holds, known, granted)

module _ {D Ks K : Type 0} (jwt : JwtOps D Ks K) (pem : PemOps) where
  validate_token-valid :
      (curl : Curl) (v : Validator) (token : Text) (r : Bool × Text)
      → validate_token jwt pem curl v token ≡ some (some r)
      → jwks_answered jwt pem v token curl.performed curl.status curl.pieces ≡ some r
  unfolding validate_token
  validate_token-valid curl v token r h = elim (Bool-cases curl.created) [
    | inr absent ↦ absurd (let bad : some none ≡ some (some r) = rw absent at h in cc)
    | inl present ↦ elim (Bool-cases (setup_jwks curl.set_opt v)) [
      | inr refused ↦
          absurd (let bad : some none ≡ some (some r) = rw (present, refused) at h in cc)
      | inl ready ↦
          let (s, answered, same) =
            map-eq_some some (jwks_answered jwt pem v token curl.performed curl.status curl.pieces)
              (some r) (rw (present, ready) at h) in
          answered ∙ same
    ]
  ]

  -- If a request with an OAuth token is answered with 201, then its payload is a token that was
  -- verified for the issuer of the validator, the audience of this product and device and a leeway of
  -- 60 seconds, with the algorithm that the key it names allows: RS256 for an RSA key, ES256 for an
  -- EC key, each with the PEM of its claims, and none for another. The key set came with a status
  -- from 200 to 299, and the subject is that of a user that the connection was authorized as.
  pub handle_oauth_request-Verified :
      (iam : Iam) (curl : Curl) (v : Validator) (req : Request)
      → handle_oauth_request jwt pem iam curl v req ≡ some (answer (response 201 []))
      → (token subject user : Text) × (req.payload ≡ some token)
        × (curl.performed ≡ true)
        × (200 ≤ curl.status)
        × (curl.status ≤ 299)
        × Verified jwt pem v (write_func [] curl.pieces) token subject
        × (iam.find_user subject ≡ some user)
        × (iam.authorize req.connection user ≡ true)
  unfolding handle_oauth_request
  handle_oauth_request-Verified iam curl v req h =
      elim (Bool-cases (is_some_format 0 req.content_format)) [
        | inr other ↦ absurd (
            let bad : some (answer (refusal 400)) ≡ some (answer (response 201 [])) =
              rw other at h in
            cc)
        | inl plain ↦ elim (Option-cases req.payload) [
          | inl missing ↦ absurd (
              let bad : some (answer (refusal 400)) ≡ some (answer (response 201 [])) =
                rw (plain, missing) at h in
              cc)
          | inr (token, present) ↦
              let (o, validated, created) =
                map-eq_some (after_validation iam req.connection)
                  (validate_token jwt pem curl v token) (answer (response 201 []))
                  (rw (plain, present) at h) in
              let (subject, user, valid, known, granted) =
                after_validation-created iam req.connection o created in
              let (performed, low, high, verified) =
                jwks_answered-Verified jwt pem v token subject curl.performed curl.status
                  curl.pieces
                  (validate_token-valid curl v token (true, subject) (validated ∙ ap some valid)) in
              (token, subject, user, present, performed, low, high, verified, known, granted)
        ]
      ]
