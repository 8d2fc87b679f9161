-- ===== src/Rtsp/Strings.antt =====
-- The `std::string` operations that rtsp_client.cpp uses, with 64-bit positions.
use mathlib.Core.Option
use edge_device_webrtc.Prelude.{
  ◌>>=◌, find, take, drop, leb, some, zero, none, ◌==◌, length, ◌/◌, ltb, ◌∷◌, ◌-◌, if◌then◌else◌,
  ◌^◌, ◌+◌, ◌%◌, suc, [], Option, ℕ, Text,
}

abbrev pub npos : ℕ
npos = 2 ^ 64 - 1

abbrev pub wrap64 : ℕ → ℕ
wrap64 n = n % 2 ^ 64

-- `a - b` on `size_t`.
abbrev pub sub64 : ℕ → ℕ → ℕ
sub64 a b = wrap64 (a + 2 ^ 64 - b)

-- `s.substr(pos, n)`; `none` is `std::out_of_range`.
unfoldable pub substr : Text → ℕ → ℕ → Option Text
substr s pos n =
    if ltb (length s) pos
    then none
    else some (if leb (length s - pos) n then drop pos s else take n (drop pos s))

-- `s.find(p, pos)`; `none` is `npos`.
unfoldable pub find_from : Text → ℕ → Text → Option ℕ
find_from p pos s =
    if ltb (length s) pos then none else Option.map (λ k. pos + k) (find p (drop pos s))

-- `std::to_string`.
abbrev pub decimal_loop : ℕ → ℕ → Text → Text
decimal_loop zero n acc = acc
decimal_loop (suc fuel) n acc =
    let here = (n % 10 + 48) ∷ acc in
    let rest = decimal_loop fuel (n / 10) here in if n / 10 == 0 then here else rest

-- A number below 10 ^ 20 has at most 20 digits.
abbrev pub decimal : ℕ → Text
decimal n = decimal_loop 20 n []

-- What stands behind the first `p`, up to the first `q` behind it.
unfoldable pub between : Text → Text → Text → Option Text
between p q s = do
  pos ← find p s
  let rest = drop (pos + length p) s
  end ← find q rest
  some (take end rest)
