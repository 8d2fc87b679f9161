-- ===== src/Util/Hex/RoundTrip.antt =====
-- Decoding undoes encoding: src/modules/util/util.cpp and src/modules/rtsp-client/rtsp_client.cpp.
use edge_device_webrtc.Prelude.{
  append-nil, none, length-append, append_assoc, refl, ◌∙◌, [], ◌^◌, true, arith, ◌∷◌, ◌%◌, some,
  replicate, ◌≡◌, ◌/◌, ◌++◌, length, All, ◌<◌, ◌+◌, ◌*◌, Text, List, ℕ,
}
use edge_device_webrtc.Util.Hex.{
  from_hex, to_hex, hex_value, from_hex_loop, clear, add_at, hex_digit,
}

abbrev pub IsByte : ℕ → Type 0
IsByte b = b < 256

pub hex_value-hex_digit : (v : ℕ) → v < 16 → hex_value (hex_digit v) ≡ some v
unfolding hex_value
hex_value-hex_digit v h = ground arith

add_at-append :
    (done : List ℕ) (x v : ℕ) (rest : List ℕ)
    → add_at (done ++ x ∷ rest) (length done) v ≡ some (done ++ ((x + v) % 256) ∷ rest)
unfolding add_at
add_at-append [] x v rest = refl
add_at-append (d ∷ done) x v rest = ground (arith, add_at-append done x v rest)

pub loop_step :
    (c v : ℕ) (cs : Text) (i : ℕ) (data_ next : List ℕ)
    → hex_value c ≡ some v
    → add_at data_ (i / 2) (v * 2 ^ ((i + 1) % 2 * 4)) ≡ some next
    → from_hex_loop (c ∷ cs) i data_ ≡ from_hex_loop cs (i + 1) next
unfolding from_hex_loop
loop_step c v cs i data_ next h a = rw (h, from_hex_loop) (rw (a, from_hex_loop))

even_index : (k : ℕ) → (2 * k / 2 ≡ k) × ((2 * k + 1) % 2 * 4 ≡ 4)
even_index k = omega arith

odd_index : (k : ℕ) → ((2 * k + 1) / 2 ≡ k) × ((2 * k + 1 + 1) % 2 * 4 ≡ 0)
odd_index k = omega arith

two_digits : (b : ℕ) → IsByte b → ((0 + b / 16 * 16) % 256 + b % 16 * 1) % 256 ≡ b
two_digits b h = omega arith

-- Two digits put one byte behind the bytes that are done.
from_hex_loop-byte :
    (b : ℕ) (cs : Text) (done rest : List ℕ)
    → IsByte b
    → from_hex_loop
        (hex_digit (b / 16) ∷ hex_digit (b % 16) ∷ cs)
        (2 * length done)
        (done ++ 0 ∷ rest)
      ≡ from_hex_loop cs (2 * length done + 1 + 1) (done ++ b ∷ rest)
from_hex_loop-byte b cs done rest h =
    let k = length done in
    loop_step (hex_digit (b / 16)) (b / 16) (hex_digit (b % 16) ∷ cs) (2 * k) (done ++ 0 ∷ rest)
      (done ++ ((0 + b / 16 * 16) % 256) ∷ rest) (hex_value-hex_digit (b / 16) (omega arith))
      (rw ((even_index k).0, (even_index k).1) (add_at-append done 0 (b / 16 * 16) rest))
    ∙ loop_step (hex_digit (b % 16)) (b % 16) cs (2 * k + 1)
        (done ++ ((0 + b / 16 * 16) % 256) ∷ rest) (done ++ b ∷ rest)
        (hex_value-hex_digit (b % 16) (omega arith))
        (rw ((odd_index k).0, (odd_index k).1)
          (add_at-append done ((0 + b / 16 * 16) % 256) (b % 16 * 1) rest ∙ rw (two_digits b h)))

index_next : (b : ℕ) (done : List ℕ) → 2 * length (done ++ b ∷ []) ≡ 2 * length done + 1 + 1
index_next b done = omega (arith, length-append done (b ∷ []))

-- The digits of `bs` put those bytes behind the ones that are done; then the loop goes on.
from_hex_loop-to_hex :
    (bs done rest : List ℕ) (cs : Text)
    → All IsByte bs
    → from_hex_loop (to_hex bs ++ cs) (2 * length done) (done ++ (replicate (length bs) 0 ++ rest))
      ≡ from_hex_loop cs (2 * length (done ++ bs)) ((done ++ bs) ++ rest)
unfolding to_hex
from_hex_loop-to_hex [] done rest cs h = rw append-nil
from_hex_loop-to_hex (b ∷ bs) done rest cs h =
    from_hex_loop-byte b (to_hex bs ++ cs) done (replicate (length bs) 0 ++ rest) h.0
    ∙ rw (index_next b done) at
        (simp append_assoc at (from_hex_loop-to_hex bs (done ++ b ∷ []) rest cs h.1))
    ∙ simp append_assoc

clear-length :
    (d rest : List ℕ) → clear (length d) (d ++ rest) ≡ some (replicate (length d) 0 ++ rest)
unfolding clear
clear-length [] rest = refl
clear-length (x ∷ d) rest = ground (arith, clear-length d rest)

half_length-to_hex : (bs : List ℕ) → length (to_hex bs) / 2 ≡ length bs
unfolding to_hex
half_length-to_hex [] = refl
half_length-to_hex (b ∷ bs) = omega (arith, half_length-to_hex bs)

add_at-end : (bs : List ℕ) (v : ℕ) → add_at bs (length bs) v ≡ none
unfolding add_at
add_at-end [] v = refl
add_at-end (b ∷ bs) v = rw (add_at-end bs v)

last_digit :
    (bs : List ℕ) (v : ℕ) → v < 16 → from_hex_loop (hex_digit v ∷ []) (2 * length bs) bs ≡ none
unfolding from_hex_loop
last_digit bs v h =
    rw (hex_value-hex_digit v h, from_hex_loop)
      (rw ((even_index (length bs)).0) (rw (add_at-end bs _, from_hex_loop)))

half_length-odd : (bs : List ℕ) (c : ℕ) → length (to_hex bs ++ c ∷ []) / 2 ≡ length bs
unfolding to_hex
half_length-odd [] c = refl
half_length-odd (b ∷ bs) c = omega (arith, half_length-odd bs c)

-- `fromHex` accepts what `toHex` prints of any bytes, and puts those bytes at the front of the
-- caller's buffer, whatever was there, and leaves the rest of it as it was.
pub from_hex-to_hex :
    (bs d rest : List ℕ)
    → All IsByte bs
    → length d ≡ length bs
    → from_hex (to_hex bs) (d ++ rest) ≡ some (true, bs ++ rest)
unfolding from_hex
from_hex-to_hex bs d rest h e =
    rw (half_length-to_hex bs, ← e, clear-length d rest, from_hex)
      (rw (e, ← append-nil (to_hex bs)) (from_hex_loop-to_hex bs [] rest [] h))

-- A text with an odd number of digits writes one byte behind the bytes that were cleared: with a
-- buffer of just half its length, rounded down, the write is outside the buffer.
odd_digit_overruns :
    (bs d : List ℕ) (v : ℕ)
    → All IsByte bs
    → v < 16
    → length d ≡ length bs
    → from_hex (to_hex bs ++ hex_digit v ∷ []) d ≡ none
unfolding from_hex
odd_digit_overruns bs d v h l e =
    rw (half_length-odd bs (hex_digit v), ← e, simp append-nil at (clear-length d []), from_hex)
      (rw e (
        simp append-nil at (from_hex_loop-to_hex bs [] [] (hex_digit v ∷ []) h)
        ∙ last_digit bs v l))
