-- ===== src/Demo/Challenge.antt =====
-- The response to a challenge: `createChallengeResponse` of
-- examples/webrtc-demo/oauth_validator.hpp, with OpenSSL and jwt-cpp as arguments.
pub mod Signed
mod Tests
use edge_device_webrtc.Prelude.{
  none, drop, ◌++◌, codes, some, length, take, leb, ◌>>=◌, if◌then◌else◌, Option, Text, List, ℕ,
}
use edge_device_webrtc.Util.Hex.{from_hex}

-- What the token holds beside its type: the public key in the header, and the claims.
pub record Challenge : Type 0 where
  pub kty : Text
  pub crv : Text
  pub x : Text
  pub y : Text
  pub client_fingerprint : Text
  pub device_fingerprint : Text
  pub nonce : Text

-- `public_point` is the point on P-256 for the bytes of a private key, `bn2bin` the bytes of a number,
-- `private_pem` the key in PEM, `encode` base64url without padding, and `sign` the token signed with
-- ES256.
pub record ChallengeOps : Type 0 where
  pub public_point : Text → ℕ × ℕ
  pub bn2bin : ℕ → Text
  pub private_pem : Text → Text
  pub encode : Text → Text
  pub sign : Text → Challenge → Text

-- The arrays on the stack, which are not initialized.
pub record Stack : Type 0 where
  pub decoded_key : Text
  pub x_bin : Text
  pub y_bin : Text

-- `BN_bn2bin` into an array; `none` is a write outside of it.
unfoldable pub bn_to_array : Text → Text → Option Text
bn_to_array bytes array =
    if leb (length bytes) (length array) then some (bytes ++ drop (length bytes) array) else none

-- The parameters of `EVP_PKEY_fromdata` and the releases are left out. `none` is undefined.
unfoldable pub create_challenge_response :
    ChallengeOps → Stack → Text → Text → Text → Text → Option Text
unfolding bn_to_array
create_challenge_response ops stack raw_private_key client_fp device_fp nonce = do
  (decoded, key) ← from_hex raw_private_key stack.decoded_key
  let (x, y) = ops.public_point (take 32 key)
  x_bin ← bn_to_array (ops.bn2bin x) stack.x_bin
  y_bin ← bn_to_array (ops.bn2bin y) stack.y_bin
  some (
      ops.sign (ops.private_pem (take 32 key)) (record {
        kty = codes "EC";
        crv = codes "P-256";
        x = ops.encode x_bin;
        y = ops.encode y_bin;
        client_fingerprint = client_fp;
        device_fingerprint = device_fp;
        nonce = nonce;
      }))
