-- ===== src/Demo/Key/Agree.antt =====
-- The device's key and the key for challenges.
use edge_device_webrtc.Prelude.{
  append-nil, ◌∙◌, sym, refl, ap, true, arith, [], ◌∷◌, ◌%◌, ◌/◌, some, ◌≡◌, ◌<◌, length, All, List,
  ℕ,
}
use edge_device_webrtc.Demo.Key.{stoi_pair, read_key}
use edge_device_webrtc.Util.Hex.{from_hex, hex_digit, to_hex}
use edge_device_webrtc.Util.Hex.RoundTrip.{hex_value-hex_digit, IsByte, from_hex-to_hex}

stoi_pair-hex_digit :
    (b : ℕ) → b < 256 → stoi_pair (hex_digit (b / 16)) (hex_digit (b % 16)) ≡ some b
unfolding stoi_pair
stoi_pair-hex_digit b h =
    rw
      (
        hex_value-hex_digit (b / 16) (omega arith),
        hex_value-hex_digit (b % 16) (omega arith),
        stoi_pair,
      )
      (ap some (omega arith))

read_key-to_hex : (bs : List ℕ) → All IsByte bs → read_key (length bs) (to_hex bs) ≡ some bs
unfolding read_key to_hex
read_key-to_hex [] h = refl
read_key-to_hex (b ∷ bs) (hb, h) =
    rw (stoi_pair-hex_digit b hb, read_key-to_hex bs h, read_key) refl

-- From the text of 32 bytes as `toHex` prints it, the device reads these bytes for its own key by
-- `std::stoi` and for the key that it signs challenges with by `fromHex`, whatever the buffer of 32
-- bytes held before.
pub keys_agree :
    (bs buffer : List ℕ)
    → All IsByte bs
    → length bs ≡ 32
    → length buffer ≡ 32
    → (read_key 32 (to_hex bs) ≡ some bs) × (from_hex (to_hex bs) buffer ≡ some (true, bs))
keys_agree bs buffer h hl hd = (
  sym (ap (λ n. read_key n (to_hex bs)) hl) ∙ read_key-to_hex bs h,
  sym (ap (from_hex (to_hex bs)) (append-nil buffer))
      ∙ from_hex-to_hex bs buffer [] h (hd ∙ sym hl)
      ∙ ap (λ l. some (true, l)) (append-nil bs),
)
