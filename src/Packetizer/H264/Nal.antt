-- ===== src/Packetizer/H264/Nal.antt =====
-- `NalUnit` of src/modules/rtp-packetizer/h264_packetizer.{hpp,cpp}. Masks on a byte are written by
-- `/` and `%`: `b & 0x1f` is `b % 32`, `b & 0xe0` is `b / 32 * 32`.
use edge_device_webrtc.Prelude.{
  zero, drop, true, take, some, not, ◌==◌, ◌+◌, ◌*◌, none, length, ◌∷◌, ◌||◌, ◌/◌, ◌%◌, suc, ltb,
  is_empty, false, Option, if◌then◌else◌, [], Text, List, Bool, ℕ,
}

abbrev pub mtu : ℕ
mtu = 1200

abbrev pub nal_idr : ℕ
nal_idr = 5

abbrev pub nal_sps : ℕ
nal_sps = 7

abbrev pub nal_pps : ℕ
nal_pps = 8

abbrev pub nal_aud : ℕ
nal_aud = 9

abbrev pub nal_fua : ℕ
nal_fua = 28

pub record NalUnit : Type 0 where
  pub bytes : Text
  pub header : ℕ
  pub should_mark : Bool

-- The default constructor.
abbrev pub no_nal : NalUnit
no_nal = record { bytes = []; header = 0; should_mark = false }

-- `none` is `front()` of an empty vector.
unfoldable pub new_nal : Text → Option NalUnit
new_nal [] = none
new_nal (b ∷ bs) = some (record { bytes = b ∷ bs; header = b; should_mark = false })

unfoldable pub is_nal_type : ℕ → NalUnit → Bool
is_nal_type type n = n.header % 32 == type

unfoldable pub is_ps_or_aud : NalUnit → Bool
unfolding is_nal_type
is_ps_or_aud n = is_nal_type nal_sps n || is_nal_type nal_pps n || is_nal_type nal_aud n

unfoldable pub make_aud_payload : NalUnit → ℕ
unfolding is_nal_type
make_aud_payload n =
    if is_nal_type nal_sps n || is_nal_type nal_pps n || is_nal_type nal_idr n then 0x10 else 0x30

-- `(type & 0x7F) | (isSet << 7)`
unfoldable pub set_start : Bool → ℕ → ℕ
set_start is_set type = type % 128 + (if is_set then 128 else 0)

-- `(type & 0b1011'1111) | (isSet << 6)`
unfoldable pub set_end : Bool → ℕ → ℕ
set_end is_set type = type / 128 * 128 + type % 64 + (if is_set then 64 else 0)

-- `i + 1 + MTU > size ? size - i - 1 : MTU`, over the `rest` bytes from `i + 1` on.
unfoldable pub fragment_length : ℕ → ℕ
fragment_length rest = if ltb rest mtu then rest else mtu

unfoldable pub fragment : ℕ → Bool → Text → Text
unfolding set_start set_end
fragment nal_head first payload =
    (nal_head / 32 * 32 + nal_fua)
    ∷ set_end (not (length payload == mtu)) (set_start first (nal_head % 32))
    ∷ payload

-- The `while` loop over the bytes from `i + 1` on; each round takes some, so their number is fuel
-- enough.
unfoldable pub fragments : ℕ → ℕ → Bool → Text → List Text
fragments zero nal_head first rest = []
fragments (suc fuel) nal_head first [] = []
fragments (suc fuel) nal_head first (b ∷ rest) =
    let len = fragment_length (length (b ∷ rest)) in
    fragment nal_head first (take len (b ∷ rest))
    ∷ fragments fuel nal_head false (drop len (b ∷ rest))

-- The messages that `packetize` hands to the RTP packetizer.
unfoldable pub nal_messages : Text → List Text
unfolding fragments
nal_messages [] = []
nal_messages (head ∷ rest) =
    if ltb (length (head ∷ rest)) mtu
    then (head ∷ rest) ∷ []
    else fragments (length rest) head true rest

-- `last[1] |= RTP_MARKER_MASK`.
unfoldable pub mark_packet : Text → Text
mark_packet (b ∷ flags ∷ rest) = b ∷ (flags % 128 + 128) ∷ rest
mark_packet short = short

unfoldable pub mark_last : List Text → List Text
unfolding mark_packet
mark_last [] = []
mark_last (p ∷ []) = mark_packet p ∷ []
mark_last (p ∷ q ∷ ps) = p ∷ mark_last (q ∷ ps)

unfoldable pub packetize {ℓ} :
    {P : Type ℓ} → (List Text → P → List Text × P) → NalUnit → P → List Text × P
unfolding nal_messages mark_last
packetize outgoing n p =
    if is_empty n.bytes
    then ([], p)
    else (let (vec, q) = outgoing (nal_messages n.bytes) p in
        (if n.should_mark then mark_last vec else vec, q))
