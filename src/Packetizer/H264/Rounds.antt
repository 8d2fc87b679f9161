-- ===== src/Packetizer/H264/Rounds.antt =====
-- The loop of src/modules/rtp-packetizer/h264_packetizer.cpp: it ends, and what it sends.
use edge_device_webrtc.Packetizer.H264.Stream.{
  starts_short, short_sep, no_fuel, broken, finished, h264_round, h264_loop, h264_incoming, Round,
  going, H264, cut,
}
use edge_device_webrtc.Prelude.{
  ◌∷◌, starts_with, some, ◌⊎◌, none, ◌+◌, drop, [], zero, ◌++◌, inr, suc, refl, inl, ltb, ◌≢◌,
  Bool-cases, find, ◌-◌, length-drop, arith, ◌<◌, ◌≡◌, length, ◌≤◌, Text, List, Bool, ℕ,
}
use edge_device_webrtc.Packetizer.Library.{Outgoing}

module _ {P : Type 0} (lib : Outgoing P) (now : ℕ) where
  cut_shrinks :
      (is_short next : Bool) (found : ℕ) (s t : H264 P) (packets : List Text)
      → found ≤ length s.buffer
      → cut lib now is_short found s ≡ going next t packets
      → length t.buffer < length s.buffer
  unfolding cut
  cut_shrinks is_short next found s t packets l h =
      ground (arith, length-drop (found - 1) s.buffer, length-drop found s.buffer)

found_length : (p s : Text) → (find p s ≡ none) ⊎ ((k : ℕ) × (find p s ≡ some k) × (k ≤ length s))
unfolding find
found_length p [] = elim (Bool-cases (starts_with p [])) [
  | inl hit ↦ rw hit (inr (0, refl, omega arith))
  | inr miss ↦ rw miss (inl refl)
]
found_length p (d ∷ s) = elim (Bool-cases (starts_with p (d ∷ s))) [
  | inl hit ↦ rw hit (inr (0, refl, omega arith))
  | inr miss ↦ elim (found_length p s) [
    | inl h ↦ rw (miss, h) (inl refl)
    | inr (k, h, l) ↦ rw (miss, h) (inr (suc k, refl, omega arith))
  ]
]

pub data RoundView {P : Type 0} (s : H264 P) (r : Round P) : Type 0 where
  ends : r ≡ finished → RoundView s r
  breaks : r ≡ broken → RoundView s r
  goes :
      (next : Bool) (t : H264 P) (packets : List Text)
      → r ≡ going next t packets
      → length t.buffer < length s.buffer
      → RoundView s r

module _ {P : Type 0} (lib : Outgoing P) (now : ℕ) where
  cut_view :
      (is_short : Bool) (found : ℕ) (s : H264 P) (r : Round P)
      → found ≤ length s.buffer
      → cut lib now is_short found s ≡ r
      → RoundView s r
  cut_view is_short found s finished l e = ends refl
  cut_view is_short found s broken l e = breaks refl
  cut_view is_short found s (going next t packets) l e =
      goes next t packets refl (cut_shrinks lib now is_short next found s t packets l e)

  round_view : (is_short : Bool) (s : H264 P) → RoundView s (h264_round lib now is_short s)
  unfolding h264_round
  round_view is_short s = elim (Bool-cases (ltb (length s.buffer) 4)) [
    | inl tiny ↦ rw tiny (breaks refl)
    | inr full ↦ elim (found_length short_sep (drop 4 s.buffer)) [
      | inl h ↦ rw (full, h) (ends refl)
      | inr (k, h, l) ↦
          rw (full, h)
            (cut_view is_short (4 + k) s (cut lib now is_short (4 + k) s)
              (ground (arith, length-drop 4 s.buffer)) refl)
    ]
  ]

  loop_total :
      (fuel : ℕ) (is_short : Bool) (ret : List Text) (s : H264 P)
      → length s.buffer < fuel
      → h264_loop lib now fuel is_short ret s ≢ no_fuel
  unfolding h264_loop
  loop_total zero is_short ret s l = absurd (omega arith)
  loop_total (suc fuel) is_short ret s l = elim (round_view is_short s) [
    | ends e ↦ rw (e, h264_loop) (λ h. cc)
    | breaks e ↦ rw (e, h264_loop) (λ h. cc)
    | goes next t packets e shrinks ↦
        rw (e, h264_loop) (loop_total fuel next (ret ++ packets) t (omega arith))
  ]

  -- The fuel that the loop over the separators of the buffer is given is enough for every input;
  -- undefined behaviour is among the ends.
  h264_incoming_total : (bytes : Text) (s : H264 P) → h264_incoming lib now bytes s ≢ no_fuel
  unfolding h264_incoming
  h264_incoming_total bytes s =
      loop_total (suc (length (s.buffer ++ bytes))) (starts_short (s.buffer ++ bytes)) []
        (record s { buffer = s.buffer ++ bytes }) (omega arith)
