-- ===== src/Util/Url/Encode.antt =====
-- `urlDecode` of src/modules/util/util.cpp against percent-encoding as RFC 3986 has it.
use edge_device_webrtc.Util.Hex.RoundTrip.{loop_step, IsByte}
use edge_device_webrtc.Util.Hex.{hex_value, from_hex, from_hex_loop, clear, add_at}
use edge_device_webrtc.Util.Url.{url_loop, url_decode, escape}
use edge_device_webrtc.Prelude.{
  ap, ◌-◌, ◌*◌, ◌+◌, ◌<◌, some, ltb, arith, ==_iff, true, refl, ◌%◌, ◌/◌, append_assoc, ◌∙◌, inr,
  inl, Bool-cases, append-nil, [], ◌++◌, All, if◌then◌else◌, false, ◌≡◌, ◌∷◌, ◌==◌, Text, Bool, ℕ,
}

-- A hexadecimal digit, in upper or in lower case.
abbrev pub digit : Bool → ℕ → ℕ
digit upper v = if ltb v 10 then b'0' + v else (if upper then b'A' else b'a') + (v - 10)

-- The percent-encoding of a byte text; `safe` says which bytes stand for themselves, and `upper` in
-- which case the digits of the others are.
pub percent_encode : (ℕ → Bool) → (ℕ → Bool) → Text → Text
percent_encode safe upper [] = []
percent_encode safe upper (c ∷ cs) =
    let rest = percent_encode safe upper cs in
    if safe c then c ∷ rest else b'%' ∷ digit (upper c) (c / 16) ∷ digit (upper c) (c % 16) ∷ rest

hex_value-digit : (upper : Bool) (v : ℕ) → v < 16 → hex_value (digit upper v) ≡ some v
unfolding hex_value
hex_value-digit true v h = ground arith
hex_value-digit false v h = ground arith

both_digits : (c : ℕ) → c < 256 → ((0 + c / 16 * 16) % 256 + c % 16 * 1) % 256 ≡ c
both_digits c h = omega arith

from_hex-two :
    (a b x y : ℕ)
    → hex_value a ≡ some x
    → hex_value b ≡ some y
    → from_hex (a ∷ b ∷ []) (0 ∷ []) ≡ some (true, (((0 + x * 16) % 256 + y * 1) % 256) ∷ [])
unfolding from_hex from_hex_loop clear add_at
from_hex-two a b x y ha hb =
    loop_step a x (b ∷ []) 0 (0 ∷ []) (((0 + x * 16) % 256) ∷ []) ha refl
    ∙ loop_step b y [] 1 (((0 + x * 16) % 256) ∷ []) ((((0 + x * 16) % 256 + y * 1) % 256) ∷ []) hb
        refl

escape-digit :
    (upper : Bool) (c : ℕ)
    → IsByte c
    → escape (digit upper (c / 16)) (digit upper (c % 16)) ≡ c ∷ []
unfolding escape
escape-digit upper c h =
    rw
      (
        from_hex-two (digit upper (c / 16)) (digit upper (c % 16)) (c / 16) (c % 16)
            (hex_value-digit upper (c / 16) (omega arith))
            (hex_value-digit upper (c % 16) (omega arith)),
        escape,
      )
      (ap (λ x. x ∷ []) (both_digits c h))

url_loop-plain :
    (c : ℕ) (cs out : Text)
    → (c == b'%') ≡ false
    → url_loop (c ∷ cs) out ≡ url_loop cs (out ++ c ∷ [])
unfolding url_loop
url_loop-plain c [] out h = rw h
url_loop-plain c (a ∷ []) out h = rw (h, url_loop)
url_loop-plain c (a ∷ b ∷ cs) out h = rw (h, url_loop)

url_loop-escape :
    (upper : Bool) (c : ℕ) (cs out : Text)
    → IsByte c
    → url_loop (b'%' ∷ digit upper (c / 16) ∷ digit upper (c % 16) ∷ cs) out
      ≡ url_loop cs (out ++ c ∷ [])
unfolding url_loop
url_loop-escape upper c cs out h = rw (escape-digit upper c h)

safe-ne : (safe : ℕ → Bool) (c : ℕ) → safe b'%' ≡ false → safe c ≡ true → (c == b'%') ≡ false
safe-ne safe c p e = elim (Bool-cases (c == b'%')) [
  | inl same ↦ cc ((==_iff c b'%').0 same)
  | inr other ↦ other
]

url_loop-percent_encode :
    (safe upper : ℕ → Bool) (s out : Text)
    → safe b'%' ≡ false
    → All IsByte s
    → url_loop (percent_encode safe upper s) out ≡ out ++ s
unfolding percent_encode url_loop
url_loop-percent_encode safe upper [] out p h = rw append-nil
url_loop-percent_encode safe upper (c ∷ s) out p h = elim (Bool-cases (safe c)) [
  | inl e ↦ rw e (
      url_loop-plain c (percent_encode safe upper s) out (safe-ne safe c p e)
      ∙ url_loop-percent_encode safe upper s (out ++ c ∷ []) p h.1
      ∙ append_assoc out (c ∷ []) s)
  | inr e ↦ rw e (
      url_loop-escape (upper c) c (percent_encode safe upper s) out h.0
      ∙ url_loop-percent_encode safe upper s (out ++ c ∷ []) p h.1
      ∙ append_assoc out (c ∷ []) s)
]

-- Decoding a percent-encoded text gives the text back, whichever bytes the encoder leaves as they
-- are, as long as it encodes `%`, and whether the digits of a byte are in upper or in lower case.
pub url_decode-percent_encode :
    (safe upper : ℕ → Bool) (s : Text)
    → safe b'%' ≡ false
    → All IsByte s
    → url_decode (percent_encode safe upper s) ≡ s
unfolding url_decode
url_decode-percent_encode safe upper s p h = url_loop-percent_encode safe upper s [] p h
