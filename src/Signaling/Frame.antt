-- ===== src/Signaling/Frame.antt =====
-- The framing of src/library/signaling-stream/signaling_stream.cpp: a 32-bit length in host order
-- (little endian on the supported targets), then the object.
use edge_device_webrtc.Prelude.{
  refl, ◌∙◌, false, ap, ◌≤◌, ◌-◌, ltb, ℕ, ◌+◌, ◌*◌, ◌/◌, ◌%◌, ◌^◌, ◌<◌, ◌≡◌, [], ◌∷◌, ◌++◌, Option,
  none, some, Text, arith, length, take, drop, leb, if◌then◌else◌, length-append, take-length,
  take-length-append, le→leb, drop-length-append,
}

-- `memcpy(buf, &size, 4)`.
unfoldable pub le32 : ℕ → Text
le32 n = (n % 256) ∷ (n / 256 % 256) ∷ (n / 65536 % 256) ∷ (n / 16777216 % 256) ∷ []

-- What `tryWriteStream` writes: `uint32_t size = data.size()`, then `size` bytes. Where `size + 4`
-- wraps around, the buffer is smaller than that: what is copied behind it is out of bounds, and
-- only the bytes of the buffer are written.
unfoldable pub frame : Text → Text
unfolding le32
frame d = let size = length d % 2 ^ 32 in take ((size + 4) % 2 ^ 32) (le32 size ++ take size d)

-- `readObject`: a read of `n` bytes, and what is left on the stream; `none` if there are not so many.
unfoldable pub take_body : ℕ → Text → Option (Text × Text)
take_body n body = if leb n (length body) then some (take n body, drop n body) else none

-- `readObjLength` and `handleReadObjLen`: four bytes of length, which are read again if it is zero.
unfoldable pub read_frame : Text → Option (Text × Text)
unfolding take_body
read_frame (a ∷ b ∷ c ∷ d ∷ body) =
    let size = a + 256 * b + 65536 * c + 16777216 * d in
    let again = read_frame body in if ltb size 1 then again else take_body size body
read_frame _ = none

le32_value :
    (n : ℕ)
    → n < 2 ^ 32
    → n % 256 + 256 * (n / 256 % 256) + 65536 * (n / 65536 % 256) + 16777216 * (n / 16777216 % 256)
      ≡ n
le32_value n h = omega arith

mod_small : (n : ℕ) → n < 2 ^ 32 → n % 2 ^ 32 ≡ n
mod_small n h = omega arith

length-frame : (n : ℕ) (d : Text) → n + 4 ≡ length d + 4 → n + 4 ≡ length (le32 n ++ d)
unfolding le32
length-frame n d h = omega arith

frame_lem : (d : Text) → length d < 2 ^ 32 - 4 → frame d ≡ le32 (length d) ++ d
unfolding frame
frame_lem d h =
    rw (mod_small (length d) (omega arith), take-length d, mod_small (length d + 4) (omega arith))
      (ap (λ n. take n (le32 (length d) ++ d)) (length-frame (length d) d refl)
        ∙ take-length (le32 (length d) ++ d))

take_body-append : (d rest : Text) → take_body (length d) (d ++ rest) ≡ some (d, rest)
unfolding take_body
take_body-append d rest = rw (
  le→leb (length d) (length (d ++ rest)) (omega (arith, length-append d rest)),
  take-length-append d rest,
  drop-length-append d rest,
)

not_zero : (n : ℕ) → 1 ≤ n → ltb n 1 ≡ false
not_zero n h = ground arith

-- Reading undoes framing: for an object of 1 to 2 ^ 32 - 5 bytes and whatever follows it on the
-- stream, the reader gets the object and is left at what follows.
pub read_frame-frame :
    (d rest : Text)
    → 1 ≤ length d
    → length d < 2 ^ 32 - 4
    → read_frame (frame d ++ rest) ≡ some (d, rest)
unfolding read_frame le32
read_frame-frame d rest l h =
    rw (frame_lem d h)
      (rw (le32_value (length d) (omega arith), not_zero (length d) l) (take_body-append d rest))
