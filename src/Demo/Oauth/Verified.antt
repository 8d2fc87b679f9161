-- ===== src/Demo/Oauth/Verified.antt =====
-- When `NabtoOauthValidator` calls a token valid.
use mathlib.Core.Path.{subst}
use edge_device_webrtc.Prelude.{
  sym, leb→le, ◌&&◌, leb, ◌∷◌, text_eq_refl, take, none, ◌≢◌, ◌++◌, text_eq→eq, length, text_eq,
  codes, arith, ltb, ◌||◌, not, ◌≤◌, some, List, ℕ, Bool, [], false, inr, ap, ◌∙◌, inl, Bool-cases,
  refl, true, ◌≡◌, Option, Text,
}
use edge_device_webrtc.Demo.Oauth.{
  rs256, es256, key_to_rsa, key_to_ecdsa, coordinate, allow, other_exception, write_func,
  runtime_error, invalid_argument, catches, jwks_answered, undefined, verifier_of, thrown,
  get_allowed_alg, returned, Algorithm, subject_of, after, check_token, Attempt, PemOps, JwtOps,
  Validator,
}

returned_injective : {A : Type 0} → {a b : A} → returned a ≡ returned b → a ≡ b
returned_injective h = cc

text_eq-ne : (s t : Text) → text_eq s t ≡ false → s ≢ t
text_eq-ne s t h e = cc (h, text_eq_refl t, e)

module _ {D Ks K : Type 0} (jwt : JwtOps D Ks K) (pem : PemOps) where
  -- The algorithms that a key allows, by its type and its claims: RS256 with the PEM of an RSA key,
  -- ES256 with the PEM of an uncompressed point on P-256, and none for another key. A coordinate of
  -- 31 bytes is read with the zero behind it.
  pub data Allows (k : K) : Option Algorithm → Type 0 where
    allows_rs256 :
        (n e modulus exponent : Text) (a : Algorithm)
        → jwt.get_key_type k ≡ returned (codes "RSA")
        → jwt.get_jwk_claim k (codes "n") ≡ returned n
        → jwt.get_jwk_claim k (codes "e") ≡ returned e
        → jwt.decode_base64 n ≡ returned modulus
        → jwt.decode_base64 e ≡ returned exponent
        → jwt.create_algorithm (rs256 (pem.rsa_pem modulus exponent)) ≡ returned a
        → Allows k (some a)
    allows_es256 :
        (x y dx dy : Text) (a : Algorithm)
        → jwt.get_key_type k ≡ returned (codes "EC")
        → jwt.get_jwk_claim k (codes "x") ≡ returned x
        → jwt.get_jwk_claim k (codes "y") ≡ returned y
        → jwt.decode_base64 x ≡ returned dx
        → jwt.decode_base64 y ≡ returned dy
        → 31 ≤ length dx
        → 31 ≤ length dy
        → jwt.create_algorithm
            (es256 (pem.ec_pem (4 ∷ take 32 (dx ++ 0 ∷ []) ++ take 32 (dy ++ 0 ∷ []))))
          ≡ returned a
        → Allows k (some a)
    incomplete_rsa :
        jwt.get_key_type k ≡ returned (codes "RSA")
        → (jwt.has_jwk_claim k (codes "n") && jwt.has_jwk_claim k (codes "e")) ≡ false
        → Allows k none
    incomplete_ec :
        jwt.get_key_type k ≡ returned (codes "EC")
        → (jwt.has_jwk_claim k (codes "x") && jwt.has_jwk_claim k (codes "y")) ≡ false
        → Allows k none
    other_type :
        (kty : Text)
        → jwt.get_key_type k ≡ returned kty
        → kty ≢ codes "RSA"
        → kty ≢ codes "EC"
        → Allows k none

  -- A token that is verified with a key of the key set, with the algorithm that the key
  -- allows, for the issuer of the validator, the device as the audience and a leeway of 60 seconds,
  -- and that has this subject.
  pub record Verified (v : Validator) (jwks token subject : Text) : Type 0 where
    pub decoded : D
    pub keys : Ks
    pub key_id : Text
    pub key : K
    pub algorithm : Option Algorithm
    pub is_decoded : jwt.decode token ≡ returned decoded
    pub is_parsed : jwt.parse_jwks jwks ≡ returned keys
    pub has_key_id : jwt.get_key_id decoded ≡ returned key_id
    pub has_key : jwt.get_jwk keys key_id ≡ returned key
    pub is_allowed : Allows key algorithm
    pub is_verified :
        jwt.verify
          (record {
            algorithm = algorithm;
            issuer = v.issuer;
            audience =
                codes "nabto://device?productId="
                ++ v.product_id
                ++ codes "&deviceId="
                ++ v.device_id;
            leeway = 60;
          })
          decoded
        ≡ returned true
    pub has_subject : jwt.get_subject decoded ≡ returned subject

  after-returned :
      {A B : Type 0} (o : Attempt A) (f : A → Attempt B) (b : B)
      → after o f ≡ returned b
      → (a : A) × (o ≡ returned a) × (f a ≡ returned b)
  unfolding after
  after-returned (returned a) f b h = (a, refl, h)
  after-returned (thrown e) f b h = absurd cc
  after-returned undefined f b h = absurd cc

  allow-some :
      (make : Text → Algorithm) (key : Text) (o : Option Algorithm)
      → allow jwt pem make (some key) ≡ returned o
      → (a : Algorithm) × (jwt.create_algorithm (make key) ≡ returned a) × (some a ≡ o)
  allow-some make key o h =
      let (a, made, same) = after-returned (jwt.create_algorithm (make key)) _ o h in
      (a, made, returned_injective same)

  after-none :
      (make : Text → Algorithm) → after (returned none) (allow jwt pem make) ≡ returned none
  unfolding after
  after-none make = refl

  coordinate-returned :
      (t p : Text) → coordinate t ≡ returned p → (31 ≤ length t) × (take 32 (t ++ 0 ∷ []) ≡ p)
  unfolding coordinate
  coordinate-returned t p h = elim (Bool-cases (leb 31 (length t))) [
    | inl long ↦ (leb→le 31 (length t) long, returned_injective (rw long at h))
    | inr short ↦
        absurd (let bad : ◌≡◌ {A = Attempt Text} undefined (returned p) = rw short at h in cc)
  ]

  rsa-Allows :
      (k : K) (o : Option Algorithm)
      → jwt.get_key_type k ≡ returned (codes "RSA")
      → after (key_to_rsa jwt pem k) (allow jwt pem rs256) ≡ returned o
      → Allows k o
  unfolding key_to_rsa
  rsa-Allows k o hk h =
      elim (Bool-cases
        (not (jwt.has_jwk_claim k (codes "n")) || not (jwt.has_jwk_claim k (codes "e")))) [
          | inl lacks ↦
              let none_allowed : after (returned none) (allow jwt pem rs256) ≡ returned o =
                rw lacks at h in
              subst (Allows k) (returned_injective (sym (after-none rs256) ∙ none_allowed))
                (incomplete_rsa hk (ground arith))
          | inr has ↦
              let (m, hm, h1) = after-returned _ _ o h in
              let (n, hn, h2) = after-returned _ _ m (rw has at hm) in
              let (e, he, h3) = after-returned _ _ m h2 in
              let (dn, hdn, h4) = after-returned _ _ m h3 in
              let (de, hde, h5) = after-returned _ _ m h4 in
              let (a, made, same) =
                allow-some rs256 (pem.rsa_pem dn de) o
                  (ap (allow jwt pem rs256) (returned_injective h5) ∙ h1) in
              subst (Allows k) same (allows_rs256 n e dn de a hk hn he hdn hde made)
        ]

  ec-Allows :
      (k : K) (o : Option Algorithm)
      → jwt.get_key_type k ≡ returned (codes "EC")
      → after (key_to_ecdsa jwt pem k) (allow jwt pem es256) ≡ returned o
      → Allows k o
  unfolding key_to_ecdsa
  ec-Allows k o hk h =
      elim (Bool-cases
        (not (jwt.has_jwk_claim k (codes "x")) || not (jwt.has_jwk_claim k (codes "y")))) [
          | inl lacks ↦
              let none_allowed : after (returned none) (allow jwt pem es256) ≡ returned o =
                rw lacks at h in
              subst (Allows k) (returned_injective (sym (after-none es256) ∙ none_allowed))
                (incomplete_ec hk (ground arith))
          | inr has ↦
              let (m, hm, h1) = after-returned _ _ o h in
              let (x, hx, h2) = after-returned _ _ m (rw has at hm) in
              let (y, hy, h3) = after-returned _ _ m h2 in
              let (dx, hdx, h4) = after-returned _ _ m h3 in
              let (dy, hdy, h5) = after-returned _ _ m h4 in
              let (px, hpx, h6) = after-returned _ _ m h5 in
              let (py, hpy, h7) = after-returned _ _ m h6 in
              let (long_x, is_x) = coordinate-returned dx px hpx in
              let (long_y, is_y) = coordinate-returned dy py hpy in
              let point =
                ap some (ap (λ p. pem.ec_pem (4 ∷ p ++ take 32 (dy ++ 0 ∷ []))) is_x)
                ∙ ap (λ p. some (pem.ec_pem (4 ∷ px ++ p))) is_y
                ∙ returned_injective h7 in
              let (a, made, same) =
                allow-some es256 (pem.ec_pem (4 ∷ take 32 (dx ++ 0 ∷ []) ++ take 32 (dy ++ 0 ∷ [])))
                  o (ap (allow jwt pem es256) point ∙ h1) in
              subst (Allows k) same (allows_es256 x y dx dy a hk hx hy hdx hdy long_x long_y made)
        ]

  get_allowed_alg-Allows :
      (k : K) (o : Option Algorithm) → get_allowed_alg jwt pem k ≡ returned o → Allows k o
  unfolding get_allowed_alg
  get_allowed_alg-Allows k o h =
      let (kty, hk, h1) = after-returned (jwt.get_key_type k) _ o h in
      elim (Bool-cases (text_eq kty (codes "RSA"))) [
        | inl rsa ↦
            rsa-Allows k o (hk ∙ ap returned (text_eq→eq kty (codes "RSA") rsa)) (rw rsa at h1)
        | inr not_rsa ↦ elim (Bool-cases (text_eq kty (codes "EC"))) [
          | inl ec ↦
              ec-Allows k o (hk ∙ ap returned (text_eq→eq kty (codes "EC") ec))
                (rw (not_rsa, ec) at h1)
          | inr not_ec ↦
              let none_allowed : returned none ≡ returned o = rw (not_rsa, not_ec) at h1 in
              subst (Allows k) (returned_injective none_allowed) (
                other_type kty hk (text_eq-ne kty (codes "RSA") not_rsa)
                  (text_eq-ne kty (codes "EC") not_ec))
        ]
      ]

  subject_of-true :
      (o : Attempt Text) (s : Text) → subject_of o ≡ returned (true, s) → o ≡ returned s
  subject_of-true (returned t) s h = cc
  subject_of-true (thrown e) s h = absurd cc
  subject_of-true undefined s h = absurd cc

  verified_as :
      (v : Validator) (a : Option Algorithm) (d : D)
      → jwt.verify (verifier_of jwt pem v a) d ≡ returned true
      → jwt.verify
          (record {
            algorithm = a;
            issuer = v.issuer;
            audience =
                codes "nabto://device?productId="
                ++ v.product_id
                ++ codes "&deviceId="
                ++ v.device_id;
            leeway = 60;
          })
          d
        ≡ returned true
  verified_as v a d h = h

  check_token-Verified :
      (v : Validator) (jwks token s : Text)
      → check_token jwt pem v jwks token ≡ returned (true, s)
      → Verified v jwks token s
  unfolding check_token
  check_token-Verified v jwks token s h =
      let (d, hd, h1) = after-returned _ _ (true, s) h in
      let (ks, hks, h2) = after-returned _ _ (true, s) h1 in
      let (kid, hkid, h3) = after-returned _ _ (true, s) h2 in
      let (k, hk, h4) = after-returned _ _ (true, s) h3 in
      let (a, ha, h5) = after-returned _ _ (true, s) h4 in
      let (verified, hv, h6) = after-returned _ _ (true, s) h5 in
      elim (Bool-cases verified) [
        | inl holds ↦ record {
          decoded = d;
          keys = ks;
          key_id = kid;
          key = k;
          algorithm = a;
          is_decoded = hd;
          is_parsed = hks;
          has_key_id = hkid;
          has_key = hk;
          is_allowed = get_allowed_alg-Allows k a ha;
          is_verified = verified_as v a d (hv ∙ ap returned holds);
          has_subject = subject_of-true (jwt.get_subject d) s (rw holds at h6);
        }
        | inr other ↦
            absurd (let bad : returned (false, []) ≡ returned (true, s) = rw other at h6 in cc)
      ]

  catches-true :
      (o : Attempt (Bool × Text)) (s : Text)
      → catches jwt pem o ≡ some (true, s)
      → o ≡ returned (true, s)
  catches-true (returned r) s h = cc
  catches-true (thrown invalid_argument) s h = absurd cc
  catches-true (thrown runtime_error) s h = absurd cc
  catches-true (thrown other_exception) s h = absurd cc
  catches-true undefined s h = absurd cc

  pub jwks_answered-Verified :
      (v : Validator) (token s : Text) (performed : Bool) (status : ℕ) (pieces : List Text)
      → jwks_answered jwt pem v token performed status pieces ≡ some (true, s)
      → (performed ≡ true)
        × (200 ≤ status)
        × (status ≤ 299)
        × Verified v (write_func [] pieces) token s
  unfolding jwks_answered
  jwks_answered-Verified v token s performed status pieces h =
      elim (Bool-cases (not performed || ltb 299 status || ltb status 200)) [
        | inl bad ↦ absurd (let no_subject : some (false, []) ≡ some (true, s) = rw bad at h in cc)
        | inr good ↦
            let checked = check_token-Verified v (write_func [] pieces) token s (
              catches-true (check_token jwt pem v (write_func [] pieces) token) s (rw good at h)) in
            (ground arith, ground arith, ground arith, checked)
      ]
