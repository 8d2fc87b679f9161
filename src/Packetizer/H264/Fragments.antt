-- ===== src/Packetizer/H264/Fragments.antt =====
-- What a receiver makes of the fragments of src/modules/rtp-packetizer/h264_packetizer.cpp.
use edge_device_webrtc.Prelude.{
  ◌∙◌, take-append-drop, ◌==◌, true, length-drop, if◌then◌else◌, false, drop, refl, zero, ◌+◌, suc,
  ◌*◌, length-take, arith, All, ◌≤◌, ◌<◌, ◌/◌, ◌++◌, ◌%◌, take, [], ◌≡◌, ◌∷◌, length, Bool, ℕ, Text,
  List,
}
use edge_device_webrtc.Packetizer.H264.Nal.{nal_messages, fragments, fragment_length, fragment}

-- The fields of a fragmentation unit, as RFC 6184 lays them out.
abbrev pub start_bit : Text → ℕ
start_bit (indicator ∷ fu ∷ payload) = fu / 128
start_bit _ = 0

abbrev pub end_bit : Text → ℕ
end_bit (indicator ∷ fu ∷ payload) = fu / 64 % 2
end_bit _ = 0

-- The header of the NAL unit that the fragment belongs to.
abbrev pub unit_header : Text → ℕ
unit_header (indicator ∷ fu ∷ payload) = indicator / 32 * 32 + fu % 32
unit_header _ = 0

abbrev pub unit_type : Text → ℕ
unit_type (indicator ∷ fu ∷ payload) = indicator % 32
unit_type _ = 0

abbrev pub payload_of : Text → Text
payload_of (indicator ∷ fu ∷ payload) = payload
payload_of _ = []

abbrev pub reassembled : List Text → Text
reassembled [] = []
reassembled (f ∷ fs) = payload_of f ++ reassembled fs

-- Every fragment is an FU-A of the unit, at most 1202 bytes long.
abbrev pub IsFragmentOf : ℕ → Text → Type 0
IsFragmentOf head f = (unit_header f ≡ head) × (unit_type f ≡ 28) × (length f ≤ 1202)

length-fragment_take :
    (rest : Text)
    → length (take (fragment_length (length rest)) rest) ≡ fragment_length (length rest)
unfolding fragment_length
length-fragment_take rest = length-take (fragment_length (length rest)) rest (ground arith)

fragment-IsFragmentOf :
    (head : ℕ) (first : Bool) (payload : Text)
    → head < 256
    → length payload ≤ 1200
    → IsFragmentOf head (fragment head first payload)
unfolding fragment
fragment-IsFragmentOf head first payload h l = ground arith

payload_of-fragment :
    (head : ℕ) (first : Bool) (payload : Text) → payload_of (fragment head first payload) ≡ payload
unfolding fragment
payload_of-fragment head first payload = refl

fragment_length_bounds :
    (n : ℕ) → 0 < n → (0 < fragment_length n) × (fragment_length n ≤ n) × (fragment_length n ≤ 1200)
unfolding fragment_length
fragment_length_bounds n h = ground arith

fragments_lem :
    (fuel head : ℕ) (first : Bool) (rest : Text)
    → head < 256
    → length rest ≤ fuel
    → All (IsFragmentOf head) (fragments fuel head first rest)
      × (reassembled (fragments fuel head first rest) ≡ rest)
unfolding fragments
fragments_lem zero head first [] h l = (tt, refl)
fragments_lem zero head first (b ∷ rest) h l = absurd (omega arith)
fragments_lem (suc fuel) head first [] h l = (tt, refl)
fragments_lem (suc fuel) head first (b ∷ rest) h l =
    let len = fragment_length (length (b ∷ rest)) in
    let bounds = fragment_length_bounds (length (b ∷ rest)) (omega arith) in
    let later = drop len (b ∷ rest) in
    let payload = take len (b ∷ rest) in
    let ih =
      fragments_lem fuel head false later h (omega (arith, bounds, length-drop len (b ∷ rest))) in
    (
      (
        fragment-IsFragmentOf head first payload h
            (omega (arith, bounds, length-fragment_take (b ∷ rest))),
        ih.0,
      ),
      rw (payload_of-fragment head first payload, ih.1) (take-append-drop len (b ∷ rest)),
    )

-- A NAL unit of at least 1200 bytes is sent as FU-A fragments of at most 1202 bytes, each of which
-- names the unit's header, and whose payloads in order are the unit's bytes behind its header.
pub nal_messages_reassemble :
    (head : ℕ) (rest : Text)
    → head < 256
    → 1200 ≤ length (head ∷ rest)
    → All (IsFragmentOf head) (nal_messages (head ∷ rest))
      × (reassembled (nal_messages (head ∷ rest)) ≡ rest)
unfolding nal_messages
nal_messages_reassemble head rest h l = ground (arith, fragments_lem (length rest) head true rest h)

abbrev pub NoStart : List Text → Type 0
NoStart = All (λ f. start_bit f ≡ 0)

abbrev pub NoEnd : List Text → Type 0
NoEnd = All (λ f. end_bit f ≡ 0)

-- Only the last entry has the end bit.
abbrev pub EndsLast : List Text → Type 0
EndsLast [] = ⊥
EndsLast (f ∷ []) = end_bit f ≡ 1
EndsLast (f ∷ g ∷ fs) = (end_bit f ≡ 0) × EndsLast (g ∷ fs)

end_bit-fragment :
    (head : ℕ) (first : Bool) (payload : Text)
    → end_bit (fragment head first payload) ≡ (if length payload == 1200 then 0 else 1)
unfolding fragment
end_bit-fragment head first payload = ground arith

start_bit-fragment :
    (head : ℕ) (first : Bool) (payload : Text)
    → start_bit (fragment head first payload) ≡ (if first then 1 else 0)
unfolding fragment
start_bit-fragment head first payload = ground arith

later_NoStart : (fuel head : ℕ) (rest : Text) → NoStart (fragments fuel head false rest)
unfolding fragments
later_NoStart zero head rest = tt
later_NoStart (suc fuel) head [] = tt
later_NoStart (suc fuel) head (b ∷ rest) =
    (start_bit-fragment head false _, later_NoStart fuel head _)

full_length : (n : ℕ) → 1200 ≤ n → fragment_length n ≡ 1200
unfolding fragment_length
full_length n h = ground arith

short_length : (n : ℕ) → n < 1200 → fragment_length n ≡ n
unfolding fragment_length
short_length n h = ground arith

full_end :
    (head : ℕ) (first : Bool) (rest : Text)
    → 1200 ≤ length rest
    → end_bit (fragment head first (take (fragment_length (length rest)) rest)) ≡ 0
full_end head first rest h =
    end_bit-fragment head first _
    ∙ ground (arith, length-fragment_take rest, full_length (length rest) h)

short_end :
    (head : ℕ) (first : Bool) (rest : Text)
    → length rest < 1200
    → end_bit (fragment head first (take (fragment_length (length rest)) rest)) ≡ 1
short_end head first rest h =
    end_bit-fragment head first _
    ∙ ground (arith, length-fragment_take rest, short_length (length rest) h)

drop-length : (xs : Text) → drop (length xs) xs ≡ []
drop-length [] = refl
drop-length (x ∷ xs) = drop-length xs

last_fragment :
    (fuel head : ℕ) (rest : Text)
    → length rest < 1200
    → fragments fuel head false (drop (fragment_length (length rest)) rest) ≡ []
unfolding fragments
last_fragment zero head rest h = refl
last_fragment (suc fuel) head rest h = rw (short_length (length rest) h, drop-length rest)

-- A whole number of full fragments: none of them has the end bit.
full_NoEnd :
    (fuel head : ℕ) (first : Bool) (rest : Text) (k : ℕ)
    → length rest ≡ 1200 * k
    → NoEnd (fragments fuel head first rest)
unfolding fragments
full_NoEnd zero head first rest k e = tt
full_NoEnd (suc fuel) head first [] k e = tt
full_NoEnd (suc fuel) head first (b ∷ rest) zero e = absurd (omega arith)
full_NoEnd (suc fuel) head first (b ∷ rest) (suc k) e =
    let len = full_length (length (b ∷ rest)) (omega arith) in
    (
      full_end head first (b ∷ rest) (omega arith),
      full_NoEnd fuel head false (drop (fragment_length (length (b ∷ rest))) (b ∷ rest)) k
          (omega (arith, len, length-drop (fragment_length (length (b ∷ rest))) (b ∷ rest))),
    )

EndsLast-cons : (f : Text) (fs : List Text) → end_bit f ≡ 0 → EndsLast fs → EndsLast (f ∷ fs)
EndsLast-cons f [] e h = absurd h
EndsLast-cons f (g ∷ fs) e h = (e, h)

-- Full fragments and a shorter one: only that one has the end bit.
partial_EndsLast :
    (fuel head : ℕ) (first : Bool) (rest : Text) (k r : ℕ)
    → length rest ≤ fuel
    → length rest ≡ 1200 * k + r
    → 0 < r
    → r < 1200
    → EndsLast (fragments fuel head first rest)
unfolding fragments
partial_EndsLast zero head first rest k r l e p q = absurd (omega arith)
partial_EndsLast (suc fuel) head first [] k r l e p q = absurd (omega arith)
partial_EndsLast (suc fuel) head first (b ∷ rest) zero r l e p q =
    rw (last_fragment fuel head (b ∷ rest) (omega arith))
      (short_end head first (b ∷ rest) (omega arith))
partial_EndsLast (suc fuel) head first (b ∷ rest) (suc k) r l e p q =
    let n = fragment_length (length (b ∷ rest)) in
    let len = full_length (length (b ∷ rest)) (omega arith) in
    EndsLast-cons _ _ (full_end head first (b ∷ rest) (omega arith)) (
      partial_EndsLast fuel head false (drop n (b ∷ rest)) k r
        (omega (arith, len, length-drop n (b ∷ rest)))
        (omega (arith, len, length-drop n (b ∷ rest))) p q)

-- The start bit stands on the first fragment alone. The end bit stands on the last one alone, if the
-- bytes behind the unit's header are not a multiple of 1200 in number.
nal_messages_marked :
    (head b : ℕ) (rest : Text) (k r : ℕ)
    → length (b ∷ rest) ≡ 1200 * k + r
    → 0 < r
    → r < 1200
    → 1200 ≤ length (head ∷ b ∷ rest)
    → (f : Text) × (fs : List Text) × (nal_messages (head ∷ b ∷ rest) ≡ f ∷ fs)
      × (start_bit f ≡ 1)
      × NoStart fs
      × EndsLast (f ∷ fs)
unfolding nal_messages
nal_messages_marked head b rest k r e p q l =
    let len = fragment_length (length (b ∷ rest)) in
    (
      fragment head true (take len (b ∷ rest)),
      fragments (length rest) head false (drop len (b ∷ rest)),
      ground arith,
      start_bit-fragment head true _,
      later_NoStart (length rest) head _,
      partial_EndsLast (length (b ∷ rest)) head true (b ∷ rest) k r (omega arith) e p q,
    )

-- If those bytes are a multiple of 1200 in number, no fragment of the unit has the end bit.
full_fragments_unmarked :
    (head : ℕ) (rest : Text) (k : ℕ)
    → length rest ≡ 1200 * suc k
    → NoEnd (nal_messages (head ∷ rest))
unfolding nal_messages
full_fragments_unmarked head rest k e =
    ground (arith, full_NoEnd (length rest) head true rest (suc k) e)
