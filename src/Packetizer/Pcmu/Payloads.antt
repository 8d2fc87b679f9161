-- ===== src/Packetizer/Pcmu/Payloads.antt =====
-- What src/modules/rtp-packetizer/pcmu_packetizer.cpp hands to the packetizer.
use edge_device_webrtc.Prelude.{
  refl, zero, inr, length-take, take-append-drop, ap, append_assoc, ◌∙◌, ◌∷◌, take, ◌^◌, ◌%◌, ◌+◌,
  length-drop, leb→le, inl, leb, Bool-cases, suc, append-nil, sym, arith, ◌≤◌, ◌<◌, [], ◌≡◌, ◌++◌,
  length, Text, ℕ, List,
}
use edge_device_webrtc.Packetizer.Pcmu.{pcmu_round, pcmu_loop, pcmu_incoming, Pcmu}
use edge_device_webrtc.Packetizer.Library.{Outgoing}

abbrev pub payloads : List (ℕ × Text) → Text
payloads [] = []
payloads ((ts, p) ∷ hs) = p ++ payloads hs

-- Each payload has 1024 bytes, and its timestamp is 1024 above the one before, modulo 2 ^ 32.
abbrev pub Ticks : ℕ → List (ℕ × Text) → Type 0
Ticks ts [] = Unit
Ticks ts ((t, p) ∷ hs) = (t ≡ (ts + 1024) % 2 ^ 32) × (length p ≡ 1024) × Ticks t hs

-- What a run of the loop adds: the payloads and what it leaves in the buffer.
pub record Sends {P : Type 0} (s t : Pcmu P) : Type 0 where
  pub new : List (ℕ × Text)
  pub appended : t.handed ≡ s.handed ++ new
  pub bytes_kept : payloads new ++ t.buffer ≡ s.buffer
  pub ticking : Ticks s.timestamp new
  pub drained : length t.buffer < 1024

module _ {P : Type 0} (lib : Outgoing P) where
  pcmu_loop-Sends :
      (fuel : ℕ) (ret : List Text) (s : Pcmu P)
      → length s.buffer ≤ fuel
      → Sends s (pcmu_loop lib fuel ret s).0
  unfolding pcmu_loop
  pcmu_loop-Sends zero ret s h = record {
    new = [];
    appended = sym (append-nil _);
    bytes_kept = refl;
    ticking = tt;
    drained = omega arith;
  }
  pcmu_loop-Sends (suc fuel) ret s h = elim (Bool-cases (leb 1024 (length s.buffer))) [
    | inl more ↦
        let len = leb→le 1024 (length s.buffer) more in
        let u = (pcmu_round lib s).0 in
        let r =
          pcmu_loop-Sends fuel (ret ++ (pcmu_round lib s).1) u
            (omega (arith, length-drop 1024 s.buffer)) in
        rw (more, pcmu_loop)
          (record {
            new = ((s.timestamp + 1024) % 2 ^ 32, take 1024 s.buffer) ∷ r.new;
            appended = r.appended ∙ append_assoc s.handed _ r.new;
            bytes_kept =
                append_assoc (take 1024 s.buffer) (payloads r.new) _
                ∙ ap (◌++◌ (take 1024 s.buffer)) r.bytes_kept
                ∙ take-append-drop 1024 s.buffer;
            ticking = (refl, length-take 1024 s.buffer len, r.ticking);
            drained = r.drained;
          })
    | inr less ↦
        rw (less, pcmu_loop)
          (record {
            new = [];
            appended = sym (append-nil _);
            bytes_kept = refl;
            ticking = tt;
            drained = ground (arith);
          })
  ]

  -- One call hands over the buffered and the new bytes in order, in payloads of 1024 bytes whose
  -- timestamps go up by 1024 modulo 2 ^ 32, and keeps the rest, less than 1024 bytes.
  pub pcmu_incoming-Sends :
      (bytes : Text) (s : Pcmu P)
      → Sends (record s { buffer = s.buffer ++ bytes }) (pcmu_incoming lib bytes s).0
  unfolding pcmu_incoming
  pcmu_incoming-Sends bytes s =
      pcmu_loop-Sends (length (s.buffer ++ bytes)) [] (record s { buffer = s.buffer ++ bytes })
        (omega arith)
