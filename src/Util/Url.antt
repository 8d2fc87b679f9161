-- ===== src/Util/Url.antt =====
-- `urlDecode` of src/modules/util/util.cpp.
pub mod Encode
use edge_device_webrtc.Util.Hex.{from_hex}
use edge_device_webrtc.Prelude.{false, ◌++◌, ◌==◌, true, some, if◌then◌else◌, ◌∷◌, ℕ, [], Text}

-- The byte that `%ab` adds: none, if `a` and `b` are not both digits.
unfoldable pub escape : ℕ → ℕ → Text
unfolding from_hex
escape a b = elim (from_hex (a ∷ b ∷ []) (0 ∷ [])) [ some (true, x ∷ xs) ↦ x ∷ [] | _ ↦ [] ]

-- The loop: what is left of the input, and `out`. A `%` too near the end drops all output.
unfoldable pub url_loop : Text → Text → Text
unfolding escape
url_loop [] out = out
url_loop (c ∷ []) out = if c == b'%' then [] else out ++ c ∷ []
url_loop (c ∷ a ∷ []) out = elim (c == b'%') [
  | true ↦ []
  | false ↦ url_loop (a ∷ []) (out ++ c ∷ [])
]
url_loop (c ∷ a ∷ b ∷ rest) out = elim (c == b'%') [
  | true ↦ url_loop rest (out ++ escape a b)
  | false ↦ url_loop (a ∷ b ∷ rest) (out ++ c ∷ [])
]

unfoldable pub url_decode : Text → Text
unfolding url_loop
url_decode in_ = url_loop in_ []
