-- ===== src/Connection/Channels.antt =====
-- Which channel `handleDatachannelEvent` of src/library/webrtc-connection/webrtc_connection.cpp opens
-- for a label.
use mathlib.Core.Option
use edge_device_webrtc.Prelude.{
  arith, lt→ltb, false, refl, ◌++◌, ◌<◌, ◌-◌, drop, ◌||◌, ◌^◌, ◌+◌, true, ltb, ◌≡◌, ◌==◌, ◌*◌, ◌&&◌,
  ◌%◌, leb, codes, [], ◌∷◌, starts_with, some, none, if◌then◌else◌, Bool, ℕ, text_eq, Text, Option,
}

abbrev pub is_space : ℕ → Bool
is_space c = c == 32 || (leb 9 c && leb c 13)

abbrev is_digit : ℕ → Bool
is_digit c = leb b'0' c && leb c b'9'

-- The number that the digits in front give, from `acc` on.
unfoldable pub digits_value : Text → ℕ → ℕ
digits_value [] acc = acc
digits_value (c ∷ cs) acc =
    let rest = digits_value cs (acc * 10 + (c - b'0')) in if is_digit c then rest else acc

-- Digits, at least one; `none` is `std::invalid_argument` or `std::out_of_range`.
unfoldable pub unsigned : Text → Option ℕ
unfolding digits_value
unsigned [] = none
unsigned (c ∷ cs) =
    let value = digits_value (c ∷ cs) 0 in
    if is_digit c && ltb value (2 ^ 64) then some value else none

-- A sign in front; a negative number wraps around.
unfoldable pub signed : Text → Option ℕ
unfolding unsigned
signed [] = none
signed (c ∷ cs) =
    if c == b'+'
    then unsigned cs
    else (if c == b'-'
        then Option.map (λ v. (2 ^ 64 - v) % 2 ^ 64) (unsigned cs)
        else unsigned (c ∷ cs))

-- `std::stoul`.
unfoldable pub stoul : Text → Option ℕ
unfolding signed
stoul [] = none
stoul (c ∷ cs) = let rest = stoul cs in if is_space c then rest else signed (c ∷ cs)

-- `no_channel` is a label for which the exception of `stoul` is caught.
pub data Opened : Type 0 where
  coap_channel no_channel data_channel : Opened
  stream_channel : ℕ → Opened

unfoldable pub open_stream : Option ℕ → Opened
open_stream none = no_channel
open_stream (some port) = stream_channel (port % 2 ^ 32)

unfoldable pub open_channel : Text → Opened
unfolding stoul open_stream
open_channel label =
    if text_eq label (codes "coap") || text_eq label (codes "nabto-coap")
    then coap_channel
    else (if starts_with (codes "stream-") label || starts_with (codes "nabto-stream-") label
        then open_stream (stoul (drop 7 label))
        else data_channel)

digit_plain :
    (d : ℕ)
    → is_digit d ≡ true
    → (is_space d ≡ false) × ((d == b'+') ≡ false) × ((d == b'-') ≡ false)
digit_plain d h = ground arith

-- A label that starts with `stream-` and a digit opens the stream channel for the number that
-- follows, as far as it fits into 64 bits and then by its last 32 bits. No label that starts with
-- `nabto-stream-` opens a channel, whatever port it names.
pub open_channel-stream_label :
    (d : ℕ) (ds port : Text)
    → is_digit d ≡ true
    → digits_value (d ∷ ds) 0 < 2 ^ 64
    → (open_channel (codes "stream-" ++ d ∷ ds) ≡ stream_channel (digits_value (d ∷ ds) 0 % 2 ^ 32))
      × (open_channel (codes "nabto-stream-" ++ port) ≡ no_channel)
unfolding open_channel stoul signed unsigned open_stream text_eq starts_with
open_channel-stream_label d ds port digit fits = (
  rw
      (
        (digit_plain d digit).0,
        (digit_plain d digit).1,
        (digit_plain d digit).2,
        lt→ltb (digits_value (d ∷ ds) 0) (2 ^ 64) fits,
        digit,
        stoul,
        signed,
        unsigned,
      )
      refl,
  refl,
)
