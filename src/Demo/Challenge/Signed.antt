-- ===== src/Demo/Challenge/Signed.antt =====
-- What the response to a challenge holds.
use edge_device_webrtc.Util.Hex.{from_hex, to_hex}
use edge_device_webrtc.Prelude.{
  refl, arith, take_all, le→leb, take, drop-length-append, append-nil, [], drop, ap, true, sym, ◌∙◌,
  codes, some, ◌≡◌, All, length, Text,
}
use edge_device_webrtc.Demo.Challenge.{ChallengeOps, bn_to_array, create_challenge_response, Stack}
use edge_device_webrtc.Util.Hex.RoundTrip.{IsByte, from_hex-to_hex}

-- An array of 32 bytes as the code declares it.
abbrev pub IsStack : Stack → Type 0
IsStack s = (length s.decoded_key ≡ 32) × (length s.x_bin ≡ 32) × (length s.y_bin ≡ 32)

bn_to_array-full :
    (bytes array : Text)
    → length bytes ≡ 32
    → length array ≡ 32
    → bn_to_array bytes array ≡ some bytes
unfolding bn_to_array
bn_to_array-full bytes array hb ha =
    let same : length bytes ≡ length array = hb ∙ sym ha in
    let none_left : drop (length bytes) array ≡ [] =
      ap (λ n. drop n array) same
      ∙ sym (ap (drop (length array)) (append-nil array))
      ∙ drop-length-append array [] in
    rw (le→leb (length bytes) (length array) (omega arith), none_left) (ap some (append-nil bytes))

-- For a private key of 32 bytes, printed as `toHex` prints it, whose public point has coordinates of
-- 32 bytes, the response is signed with this key and holds its public point, both fingerprints and
-- the nonce, whatever the arrays on the stack held before.
pub create_challenge_response-signed :
    (ops : ChallengeOps) (stack : Stack) (bs client device nonce : Text)
    → IsStack stack
    → All IsByte bs
    → length bs ≡ 32
    → length (ops.bn2bin (ops.public_point bs).0) ≡ 32
    → length (ops.bn2bin (ops.public_point bs).1) ≡ 32
    → create_challenge_response ops stack (to_hex bs) client device nonce
      ≡ some (
          ops.sign (ops.private_pem bs) (record {
            kty = codes "EC";
            crv = codes "P-256";
            x = ops.encode (ops.bn2bin (ops.public_point bs).0);
            y = ops.encode (ops.bn2bin (ops.public_point bs).1);
            client_fingerprint = client;
            device_fingerprint = device;
            nonce = nonce;
          }))
unfolding create_challenge_response
create_challenge_response-signed ops stack bs client device nonce (hk, hx, hy) hb hl px py =
    let key : from_hex (to_hex bs) stack.decoded_key ≡ some (true, bs) =
      sym (ap (from_hex (to_hex bs)) (append-nil stack.decoded_key))
      ∙ from_hex-to_hex bs stack.decoded_key [] hb (hk ∙ sym hl)
      ∙ ap (λ l. some (true, l)) (append-nil bs) in
    let whole : take 32 bs ≡ bs = take_all 32 bs (omega arith) in
    rw key (
      rw whole (
        rw
          (
            bn_to_array-full (ops.bn2bin (ops.public_point bs).0) stack.x_bin px hx,
            bn_to_array-full (ops.bn2bin (ops.public_point bs).1) stack.y_bin py hy,
          )
          refl))
