-- ===== src/Demo/Oauth.antt =====
-- The check of OAuth tokens by `NabtoOauthValidator` (examples/webrtc-demo/oauth_validator.hpp) and
-- the CoAP handler that uses it. The libraries jwt-cpp, libcurl and OpenSSL are arguments.
pub mod Verified
use edge_device_webrtc.Prelude.{
  take, ltb, ◌||◌, length, [], ◌++◌, not, none, leb, false, ◌∷◌, true, some, if◌then◌else◌, codes,
  text_eq, Text, Option, Bool, List, ℕ,
}
use edge_device_webrtc.Demo.Coap.{Request}
use edge_device_webrtc.Listeners.{RequestCall}

-- The classes of exceptions that `validateToken` tells apart.
pub data Thrown : Type 0 where
  invalid_argument runtime_error other_exception : Thrown

-- The end of a call: a read outside of a buffer is `undefined`.
pub data Attempt (A : Type 0) : Type 0 where
  returned : A → Attempt A
  thrown : Thrown → Attempt A
  undefined : Attempt A

unfoldable pub after : {A B : Type 0} → Attempt A → (A → Attempt B) → Attempt B
after (returned x) f = f x
after (thrown e) f = thrown e
after undefined f = undefined

-- What `verifier` is given: the algorithm that it allows, with the public key, the issuer, the
-- audience and the leeway in seconds.
pub data Algorithm : Type 0 where
  rs256 es256 : Text → Algorithm

pub record Verifier : Type 0 where
  pub algorithm : Option Algorithm
  pub issuer : Text
  pub audience : Text
  pub leeway : ℕ

-- `D` is the type of decoded tokens, `Ks` that of key sets and `K` that of keys.
pub record JwtOps (D Ks K : Type 0) : Type 0 where
  pub decode : Text → Attempt D
  pub parse_jwks : Text → Attempt Ks
  pub get_key_id : D → Attempt Text
  pub get_jwk : Ks → Text → Attempt K
  pub get_key_type : K → Attempt Text
  pub has_jwk_claim : K → Text → Bool
  -- The claim as a string.
  pub get_jwk_claim : K → Text → Attempt Text
  -- `base::decode(base::pad(text))`
  pub decode_base64 : Text → Attempt Text
  -- The constructors of the algorithms, which read the key.
  pub create_algorithm : Algorithm → Attempt Algorithm
  -- `false` is `token_verification_exception`.
  pub verify : Verifier → D → Attempt Bool
  -- The claim "sub" as a string.
  pub get_subject : D → Attempt Text

-- The public keys of OpenSSL in PEM: of an RSA key with a modulus and an exponent, and of the point
-- on P-256 with these bytes.
pub record PemOps : Type 0 where
  pub rsa_pem : Text → Text → Text
  pub ec_pem : Text → Text

pub record Validator : Type 0 where
  pub url : Text
  pub issuer : Text
  pub product_id : Text
  pub device_id : Text
  pub ca_bundle : Option Text

-- The options that `setupJwks` sets.
pub data JwksOption : Type 0 where
  url_option write_function write_data : JwksOption
  ca_info : Text → JwksOption

-- `set_opt` tells whether libcurl takes an option.
unfoldable pub setup_jwks : (JwksOption → Bool) → Validator → Bool
setup_jwks set_opt v =
    if not (set_opt url_option)
    then false
    else (if not (set_opt write_function)
        then false
        else (if not (set_opt write_data)
            then false
            else elim v.ca_bundle [ none ↦ true | some bundle ↦ set_opt (ca_info bundle) ]))

-- `writeFunc` on what the server sends, piece by piece.
abbrev pub write_func : Text → List Text → Text
write_func jwks [] = jwks
write_func jwks (piece ∷ pieces) = write_func (jwks ++ piece) pieces

-- `memcpy` of 32 bytes of a string, behind which a zero stands.
unfoldable pub coordinate : Text → Attempt Text
coordinate t = if leb 31 (length t) then returned (take 32 (t ++ 0 ∷ [])) else undefined

abbrev pub audience_of : Validator → Text
audience_of v =
    codes "nabto://device?productId=" ++ v.product_id ++ codes "&deviceId=" ++ v.device_id

-- What the callback is called with; the subject of a token that is not valid is empty.
abbrev pub subject_of : Attempt Text → Attempt (Bool × Text)
subject_of (returned s) = returned (true, s)
subject_of (thrown e) = returned (false, [])
subject_of undefined = undefined

module _ {D Ks K : Type 0} (jwt : JwtOps D Ks K) (pem : PemOps) where
  -- `none` is `false`.
  unfoldable pub key_to_rsa : K → Attempt (Option Text)
  key_to_rsa k =
      if not (jwt.has_jwk_claim k (codes "n")) || not (jwt.has_jwk_claim k (codes "e"))
      then returned none
      else after (jwt.get_jwk_claim k (codes "n")) λ n. after (jwt.get_jwk_claim k (codes "e")) λ e.
        after (jwt.decode_base64 n) λ decoded_n.
          after (jwt.decode_base64 e) λ decoded_e. returned (some (pem.rsa_pem decoded_n decoded_e))

  unfoldable pub key_to_ecdsa : K → Attempt (Option Text)
  unfolding coordinate
  key_to_ecdsa k =
      if not (jwt.has_jwk_claim k (codes "x")) || not (jwt.has_jwk_claim k (codes "y"))
      then returned none
      else after (jwt.get_jwk_claim k (codes "x")) λ x. after (jwt.get_jwk_claim k (codes "y")) λ y.
        after (jwt.decode_base64 x) λ decoded_x. after (jwt.decode_base64 y) λ decoded_y.
          after (coordinate decoded_x) λ point_x.
            after (coordinate decoded_y)
              λ point_y. returned (some (pem.ec_pem (4 ∷ point_x ++ point_y)))

  abbrev pub allow : (Text → Algorithm) → Option Text → Attempt (Option Algorithm)
  allow make none = returned none
  allow make (some key) = after (jwt.create_algorithm (make key)) λ a. returned (some a)

  -- The algorithm that is allowed for a key; `none` leaves the verifier without one.
  unfoldable pub get_allowed_alg : K → Attempt (Option Algorithm)
  unfolding key_to_rsa key_to_ecdsa text_eq
  get_allowed_alg k = after (jwt.get_key_type k) λ kty.
      if text_eq kty (codes "RSA")
      then after (key_to_rsa k) (allow rs256)
      else (if text_eq kty (codes "EC")
          then after (key_to_ecdsa k) (allow es256)
          else returned none)

  abbrev pub verifier_of : Validator → Option Algorithm → Verifier
  verifier_of v a = record {
    algorithm = a;
    issuer = v.issuer;
    audience = audience_of v;
    leeway = 60;
  }

  -- The block under `try`.
  unfoldable pub check_token : Validator → Text → Text → Attempt (Bool × Text)
  unfolding get_allowed_alg
  check_token v jwks token = after (jwt.decode token) λ d. after (jwt.parse_jwks jwks) λ ks.
      after (jwt.get_key_id d) λ kid. after (jwt.get_jwk ks kid) λ k. after (get_allowed_alg k) λ a.
        after (jwt.verify (verifier_of v a) d)
          λ verified. if verified then subject_of (jwt.get_subject d) else returned (false, [])

  -- The handlers of the exceptions; another exception leaves the callback.
  abbrev pub catches : Attempt (Bool × Text) → Option (Bool × Text)
  catches (returned r) = some r
  catches (thrown invalid_argument) = some (false, [])
  catches (thrown runtime_error) = some (false, [])
  catches (thrown other_exception) = none
  catches undefined = none

  -- The callback of the request, with whether libcurl has performed it, the status and the pieces
  -- of the key set; `none` if the callback of `validateToken` is not called.
  unfoldable pub jwks_answered : Validator → Text → Bool → ℕ → List Text → Option (Bool × Text)
  unfolding check_token
  jwks_answered v token curl_ok status pieces =
      if not curl_ok || ltb 299 status || ltb status 200
      then some (false, [])
      else catches (check_token v (write_func [] pieces) token)
