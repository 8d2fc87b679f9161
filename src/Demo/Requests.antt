-- ===== src/Demo/Requests.antt =====
-- The handlers of CoAP requests of the demo device (examples/webrtc-demo/nabto_device.cpp): the OAuth
-- token and the challenge.
pub mod Authorized
use mathlib.Core.Option
use edge_device_webrtc.Json.{JsonOps}
use edge_device_webrtc.Prelude.{
  take, codes, some, none, ◌>>=◌, not, [], if◌then◌else◌, Option, ◌∷◌, Text, Bool, List, ℕ,
}
use edge_device_webrtc.Demo.Coap.{application_json, is_some_format, Request}
use edge_device_webrtc.Listeners.{response, refusal, request_free, RequestCall}
use edge_device_webrtc.Demo.Oauth.{setup_jwks, jwks_answered, PemOps, JwksOption, JwtOps, Validator}

-- The IAM module: the user with an OAuth subject, and whether a connection is authorized as a user.
pub record Iam : Type 0 where
  pub find_user : Text → Option Text
  pub authorize : ℕ → Text → Bool

abbrev pub answer : RequestCall → List RequestCall
answer c = c ∷ request_free ∷ []

-- The callback that `handleOauthRequest` gives to `validateToken`.
unfoldable pub token_validated : Iam → ℕ → Bool × Text → List RequestCall
token_validated iam ref (valid, subject) =
    if not valid then answer (refusal 401) else elim (iam.find_user subject) [
      | none ↦ answer (refusal 404)
      | some user ↦ answer (if iam.authorize ref user then response 201 [] else refusal 404)
    ]

-- What is answered after `validateToken`; `none` is its result `false`.
unfoldable pub after_validation : Iam → ℕ → Option (Bool × Text) → List RequestCall
unfolding token_validated
after_validation iam ref none = answer (refusal 500)
after_validation iam ref (some r) = token_validated iam ref r

-- What libcurl does in a validation: whether the handle can be created, the options it takes, whether
-- it performs the request, the status and the pieces of the answer.
pub record Curl : Type 0 where
  pub created : Bool
  pub set_opt : JwksOption → Bool
  pub performed : Bool
  pub status : ℕ
  pub pieces : List Text

module _ {D Ks K : Type 0} (jwt : JwtOps D Ks K) (pem : PemOps) where
  -- `validateToken` and the call of its callback: `some none` is the result `false`, and `none` stands
  -- for a callback that is never called.
  unfoldable pub validate_token : Curl → Validator → Text → Option (Option (Bool × Text))
  unfolding jwks_answered setup_jwks
  validate_token curl v token =
      if not curl.created
      then some none
      else (if not (setup_jwks curl.set_opt v)
          then some none
          else Option.map some
              (jwks_answered jwt pem v token curl.performed curl.status curl.pieces))

  -- The calls on a request; `none` if it is never answered.
  unfoldable pub handle_oauth_request : Iam → Curl → Validator → Request → Option (List RequestCall)
  unfolding validate_token after_validation
  handle_oauth_request iam curl v req =
      if not (is_some_format 0 req.content_format)
      then some (answer (refusal 400))
      else elim req.payload [
        | none ↦ some (answer (refusal 400))
        | some token ↦
            Option.map (after_validation iam req.connection) (validate_token curl v token)
      ]

-- The fingerprints that the SDK hands out, to be freed by the caller.
pub data Fingerprint : Type 0 where
  client_fp device_fp : Fingerprint

pub record Challenged : Type 0 where
  pub calls : List RequestCall
  pub taken : List Fingerprint
  pub freed : List Fingerprint

-- The nonce in a request, unless it is refused with 400.
unfoldable pub nonce_of : {J : Type 0} → JsonOps J → Request → Option Text
nonce_of json req = do
  payload ← if is_some_format application_json req.content_format then req.payload else none
  j ← json.parse payload
  (c, j2) ← json.entry (codes "challenge") j
  json.get_string c

-- The JSON object of the response.
abbrev pub challenge_response : {J : Type 0} → JsonOps J → Text → Text
challenge_response json token = json.dump (json.object ((codes "response", json.string token) ∷ []))

-- `fp` is the fingerprint that the SDK returns, if it does, and `create_response` is
-- `createChallengeResponse` for the fingerprint of the client, that of the device, and the nonce.
unfoldable pub handle_challenge_request :
    {J : Type 0}
    → JsonOps J
    → (Fingerprint → Option Text)
    → (Text → Text → Text → Text)
    → Request
    → Challenged
unfolding nonce_of
handle_challenge_request json fp create_response req =
    let bad = answer (refusal 400) in
    elim (nonce_of json req) [
      | none ↦ record { calls = bad; taken = []; freed = [] }
      | some n ↦ elim (fp client_fp) [
        | none ↦ record { calls = bad; taken = []; freed = [] }
        | some client ↦ elim (fp device_fp) [
          | none ↦ record { calls = bad; taken = client_fp ∷ []; freed = client_fp ∷ [] }
          | some device ↦ record {
            calls = answer (
                response 205
                  (challenge_response json (create_response (take 64 client) (take 64 device) n)));
            taken = client_fp ∷ device_fp ∷ [];
            freed = client_fp ∷ device_fp ∷ [];
          }
        ]
      ]
    ]
