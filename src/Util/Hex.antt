-- ===== src/Util/Hex.antt =====
-- `fromHex` of src/modules/util/util.cpp, and `toHex` of src/modules/rtsp-client/rtsp_client.cpp.
pub mod RoundTrip
use edge_device_webrtc.Prelude.{
  ◌^◌, ◌*◌, [], ◌-◌, ◌%◌, zero, false, ◌/◌, ◌+◌, ◌&&◌, true, suc, length, ◌∷◌, some, none, ltb, leb,
  Bool, if◌then◌else◌, Text, Option, List, ℕ,
}

-- The value of a hexadecimal digit.
unfoldable pub hex_value : ℕ → Option ℕ
hex_value c =
    if leb b'0' c && leb c b'9'
    then some (c - b'0')
    else (if leb b'A' c && leb c b'F'
        then some (10 + (c - b'A'))
        else (if leb b'a' c && leb c b'f' then some (10 + (c - b'a')) else none))

-- `data[i] += v` on bytes; `none` is a write outside the buffer.
unfoldable pub add_at : List ℕ → ℕ → ℕ → Option (List ℕ)
add_at [] i v = none
add_at (x ∷ xs) zero v = some (((x + v) % 256) ∷ xs)
add_at (x ∷ xs) (suc i) v = elim (add_at xs i v) [ none ↦ none | some ys ↦ some (x ∷ ys) ]

-- The loop, from position `index` on: the result of the call and the buffer that it leaves.
unfoldable pub from_hex_loop : Text → ℕ → List ℕ → Option (Bool × List ℕ)
unfolding hex_value add_at
from_hex_loop [] index data_ = some (true, data_)
from_hex_loop (c ∷ cs) index data_ = elim (hex_value c) [
  | none ↦ some (false, data_)
  | some value ↦ elim (add_at data_ (index / 2) (value * 2 ^ ((index + 1) % 2 * 4))) [
    | none ↦ none
    | some next ↦ from_hex_loop cs (index + 1) next
  ]
]

-- `memset(data, 0, n)`.
unfoldable pub clear : ℕ → List ℕ → Option (List ℕ)
clear zero d = some d
clear (suc n) [] = none
clear (suc n) (x ∷ xs) = elim (clear n xs) [ none ↦ none | some ys ↦ some (0 ∷ ys) ]

-- `data_` is the caller's buffer.
unfoldable pub from_hex : Text → List ℕ → Option (Bool × List ℕ)
unfolding from_hex_loop clear
from_hex hex data_ = elim (clear (length hex / 2) data_) [
  | none ↦ none
  | some zeros ↦ from_hex_loop hex 0 zeros
]

abbrev pub hex_digit : ℕ → ℕ
hex_digit v = if ltb v 10 then b'0' + v else b'a' + (v - 10)

-- `std::hex` with width 2, filled with `0`.
unfoldable pub to_hex : List ℕ → Text
to_hex [] = []
to_hex (b ∷ bs) = hex_digit (b / 16) ∷ hex_digit (b % 16) ∷ to_hex bs
