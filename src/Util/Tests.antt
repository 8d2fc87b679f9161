-- ===== src/Util/Tests.antt =====
-- The theorems on src/modules/util at concrete inputs.
use edge_device_webrtc.Util.Hex.RoundTrip.{from_hex-to_hex}
use edge_device_webrtc.Util.Hex.{from_hex, to_hex}
use edge_device_webrtc.Util.Url.Encode.{url_decode-percent_encode, percent_encode}
use edge_device_webrtc.Prelude.{[], ◌∷◌, some, true, refl, codes, ltb, ◌≡◌, arith}
use edge_device_webrtc.Util.Url.{url_decode}

url_decode-percent_encode_example :
    url_decode (percent_encode (λ c. ltb c 37) (λ c. true) (codes "a%")) ≡ codes "a%"
url_decode-percent_encode_example =
    url_decode-percent_encode (λ c. ltb c 37) (λ c. true) (codes "a%") refl
      (omega arith, (omega arith, tt))

from_hex-to_hex_example :
    from_hex (to_hex (10 ∷ 255 ∷ [])) (7 ∷ 7 ∷ 7 ∷ []) ≡ some (true, 10 ∷ 255 ∷ 7 ∷ [])
from_hex-to_hex_example =
    from_hex-to_hex (10 ∷ 255 ∷ []) (7 ∷ 7 ∷ []) (7 ∷ []) (omega arith, (omega arith, tt)) refl
