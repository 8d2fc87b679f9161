-- ===== src/Rtsp/Credentials.antt =====
-- The credentials that the constructor of src/modules/rtsp-client/rtsp_client.cpp takes from a URL.
use edge_device_webrtc.Util.Url.{url_decode}
use edge_device_webrtc.Rtsp.Url.{with_credentials, parse_url, second_start}
use edge_device_webrtc.Rtsp.Strings.{sub64, find_from, npos, substr}
use edge_device_webrtc.Prelude.{
  Lacks-append, find_char_at, find_char, Lacks, refl, append_assoc, ap, le→leb, true, ◌^◌, ◌-◌, ◌<◌,
  leb, ◌+◌, ltb, codes, take-length-append, length-append, drop-length-append, arith, some, ◌≤◌,
  ◌++◌, length, false, [], ◌≡◌, ◌∷◌, Text, ℕ, find,
}

substr_middle :
    (xs ys : Text) (c : ℕ) (zs : Text) (pos n : ℕ)
    → pos ≡ length xs
    → n ≡ length ys
    → substr (xs ++ (ys ++ c ∷ zs)) pos n ≡ some ys
unfolding substr
substr_middle xs ys c zs pos n e k =
    rw (e, k, drop-length-append xs (ys ++ c ∷ zs), take-length-append ys (c ∷ zs))
      (ground (arith, length-append xs (ys ++ c ∷ zs), length-append ys (c ∷ zs)))

le→ltb_false : (a b : ℕ) → b ≤ a → ltb a b ≡ false
le→ltb_false a b h = ground arith

substr_rest :
    (xs ys : Text) (pos : ℕ)
    → pos ≡ length xs
    → length ys ≤ npos
    → substr (xs ++ ys) pos npos ≡ some ys
unfolding substr
substr_rest xs ys pos e k =
    let inside : ltb (length (xs ++ ys)) (length xs) ≡ false =
      le→ltb_false _ _ (omega (arith, length-append xs ys)) in
    let fits : leb (length (xs ++ ys) - length xs) npos ≡ true =
      le→leb _ npos (omega (arith, length-append xs ys)) in
    rw (e, inside, fits) (ap some (drop-length-append xs ys))

abbrev pub scheme : Text
scheme = codes "rtsp://"

abbrev pub credential_url : Text → Text → Text → Text
credential_url user password host = scheme ++ (user ++ (b':' ∷ (password ++ b'@' ∷ host)))

module _ (user password host : Text) (user_colon : Lacks b':' user) (user_at : Lacks b'@' user)
    (password_at : Lacks b'@' password)
    (fits : length user + length password + length host < 2 ^ 63) where
  first_colon : find (codes ":") (credential_url user password host) ≡ some 4
  first_colon =
      find_char b':' (codes "rtsp") (codes "//" ++ (user ++ (b':' ∷ (password ++ b'@' ∷ host))))
        (refl, (refl, (refl, (refl, tt))))

  second_colon :
      find (codes ":") (codes "//" ++ (user ++ (b':' ∷ (password ++ b'@' ∷ host))))
      ≡ some (2 + length user)
  second_colon =
      find_char_at b':' (codes "//" ++ user) (password ++ b'@' ∷ host) (2 + length user)
        (refl, (refl, user_colon)) (omega arith)

  start_at : second_start (credential_url user password host) ≡ 5
  unfolding second_start
  start_at = rw (first_colon, second_start) refl

  colon_found :
      find_from
        (codes ":")
        (second_start (credential_url user password host))
        (credential_url user password host)
      ≡ some (7 + length user)
  unfolding find_from
  colon_found =
      let inside : ltb (length (credential_url user password host)) 5 ≡ false =
        le→ltb_false _ 5 (omega arith) in
      rw (start_at, inside, second_colon, find_from) (ap some (omega arith))

  at_found :
      find (codes "@") (credential_url user password host)
      ≡ some (8 + length user + length password)
  at_found = rw⁻¹ (append_assoc user (b':' ∷ password) (b'@' ∷ host)) (
      find_char_at b'@' (scheme ++ (user ++ b':' ∷ password)) host
        (8 + length user + length password)
        (
          refl,
          (
            refl,
            (
              refl,
              (
                refl,
                (
                  refl,
                  (
                    refl,
                    (refl, Lacks-append b'@' user (b':' ∷ password) user_at (refl, password_at)),
                  ),
                ),
              ),
            ),
          ),
        )
        (omega (arith, length-append user (b':' ∷ password))))

  secret_at :
      substr
        (credential_url user password host)
        (7 + length user + 1)
        (sub64 (sub64 (8 + length user + length password) (7 + length user)) 1)
      ≡ some password
  secret_at = rw⁻¹ (append_assoc user (b':' ∷ []) (password ++ b'@' ∷ host)) (
      substr_middle (scheme ++ (user ++ b':' ∷ [])) password b'@' host _ _
        (omega (arith, length-append user (b':' ∷ []))) (omega arith))

  host_at :
      substr (credential_url user password host) (8 + length user + length password + 1) npos
      ≡ some host
  host_at =
      rw
        (
          ← append_assoc password (b'@' ∷ []) host,
          ← append_assoc user (b':' ∷ (password ++ b'@' ∷ [])) host,
        )
        (substr_rest (scheme ++ (user ++ (b':' ∷ (password ++ b'@' ∷ [])))) host _
          (omega (
            arith,
            length-append user (b':' ∷ (password ++ b'@' ∷ [])),
            length-append password (b'@' ∷ []),
          ))
          (omega arith))

  -- A URL with a user name that has no `:` or `@`, and a password that has no `@`, gives both,
  -- decoded, and the URL without them.
  pub parse_url-credential_url :
      parse_url (credential_url user password host)
      ≡ some (record {
        url = scheme ++ host;
        username = url_decode user;
        password = url_decode password;
        configured = true;
      })
  unfolding parse_url
  parse_url-credential_url =
      let name : substr (credential_url user password host) 7 (sub64 (7 + length user) 7)
          ≡ some user =
        substr_middle scheme user b':' (password ++ b'@' ∷ host) 7 _ refl (omega arith) in
      rw (at_found, colon_found, name, secret_at, host_at, parse_url, with_credentials) refl
