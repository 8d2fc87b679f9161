-- ===== src/Demo/Challenge/Tests.antt =====
-- The theorem on challenges for one key.
use edge_device_webrtc.Demo.Challenge.Signed.{create_challenge_response-signed}
use edge_device_webrtc.Util.Hex.RoundTrip.{IsByte}
use edge_device_webrtc.Util.Hex.{to_hex}
use edge_device_webrtc.Prelude.{refl, zero, some, ◌≡◌, arith, ◌++◌, suc, codes, replicate, All, ℕ}
use edge_device_webrtc.Demo.Challenge.{create_challenge_response, Stack, ChallengeOps}

-- A library whose numbers are printed as 32 equal bytes.
abbrev plain_ops : ChallengeOps
plain_ops = record {
  public_point = λ k. (1, 2);
  bn2bin = λ n. replicate 32 n;
  private_pem = λ k. k;
  encode = λ t. t;
  sign = λ k c. k ++ c.x ++ c.y ++ c.nonce;
}

abbrev filled : Stack
filled = record { decoded_key = replicate 32 9; x_bin = replicate 32 8; y_bin = replicate 32 7 }

IsByte-replicate : (n : ℕ) → All IsByte (replicate n 171)
IsByte-replicate zero = tt
IsByte-replicate (suc n) = (omega arith, IsByte-replicate n)

create_challenge_response-signed_example :
    create_challenge_response plain_ops filled
      (to_hex (replicate 32 171))
      (codes "c")
      (codes "d")
      (codes "n")
    ≡ some (replicate 32 171 ++ replicate 32 1 ++ replicate 32 2 ++ codes "n")
create_challenge_response-signed_example =
    create_challenge_response-signed plain_ops filled (replicate 32 171) (codes "c") (codes "d")
      (codes "n") (refl, refl, refl) (IsByte-replicate 32) refl refl refl
