-- ===== src/Demo/Key.antt =====
-- The private key of the demo device: how `NabtoDeviceApp::start` (nabto_device.cpp) reads the text
-- of the options.
pub mod Agree
use mathlib.Core.Option
use edge_device_webrtc.Prelude.{
  zero, ◌>>=◌, suc, ◌∷◌, ◌%◌, ◌-◌, if◌then◌else◌, ◌+◌, ◌&&◌, ◌*◌, leb, ◌||◌, none, [], ◌==◌, some,
  Text, Option, Bool, List, ℕ,
}
use edge_device_webrtc.Connection.Channels.{is_space}
use edge_device_webrtc.Util.Hex.{hex_value}

-- `std::stoi` of two characters in base 16, as the byte that it is stored in; `none` is an exception.
-- A digit that no other follows is the number.
unfoldable pub stoi_pair : ℕ → ℕ → Option ℕ
stoi_pair c d = elim (hex_value c) [
  | some v ↦ elim (hex_value d) [ none ↦ some v | some w ↦ some (v * 16 + w) ]
  | none ↦
      if is_space c || c == b'+'
      then hex_value d
      else (if c == b'-' then Option.map (λ w. (256 - w) % 256) (hex_value d) else none)
]

-- The loop over `n` bytes of the key.
unfoldable pub read_key : ℕ → Text → Option (List ℕ)
unfolding stoi_pair
read_key zero t = some []
read_key (suc n) (c ∷ d ∷ t) = do b ← stoi_pair c d; bs ← read_key n t; some (b ∷ bs)
read_key (suc n) t = none
