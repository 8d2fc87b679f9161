-- ===== src/Packetizer/Pcmu.antt =====
-- `PcmuPacketizer::incoming` of src/modules/rtp-packetizer/pcmu_packetizer.cpp.
pub mod Payloads
use edge_device_webrtc.Packetizer.Library.{Outgoing}
use edge_device_webrtc.Prelude.{
  false, zero, true, drop, ◌∷◌, ◌^◌, ◌%◌, [], ◌+◌, length, leb, ◌++◌, take, suc, List, Text, ℕ,
}

pub record Pcmu (P : Type 0) : Type 0 where
  pub buffer : Text
  pub timestamp : ℕ
  pub packetizer : P
  -- The payloads handed to the packetizer so far, each with the timestamp configured for it.
  pub handed : List (ℕ × Text)

abbrev pub payload_size : ℕ
payload_size = 1024

module _ {P : Type 0} (lib : Outgoing P) where
  -- One round of the loop: the new state and the packets that it adds.
  unfoldable pub pcmu_round : Pcmu P → Pcmu P × List Text
  pcmu_round s =
      let payload = take payload_size s.buffer in
      let timestamp = (s.timestamp + 1024) % 2 ^ 32 in
      let (vec, packetizer) = lib.outgoing timestamp (payload ∷ []) s.packetizer in
      (
        record {
          buffer = drop payload_size s.buffer;
          timestamp = timestamp;
          packetizer = packetizer;
          handed = s.handed ++ (timestamp, payload) ∷ [];
        },
        vec,
      )

  -- The loop, with fuel for its rounds; `ret` is what it has collected.
  unfoldable pub pcmu_loop : ℕ → List Text → Pcmu P → Pcmu P × List Text
  unfolding pcmu_round
  pcmu_loop zero ret s = (s, ret)
  pcmu_loop (suc fuel) ret s = elim (leb payload_size (length s.buffer)) [
    | true ↦ pcmu_loop fuel (ret ++ (pcmu_round s).1) (pcmu_round s).0
    | false ↦ (s, ret)
  ]

  -- Each round takes bytes off the buffer, so its length is fuel enough.
  unfoldable pub pcmu_incoming : Text → Pcmu P → Pcmu P × List Text
  unfolding pcmu_loop
  pcmu_incoming bytes s =
      let t = record s { buffer = s.buffer ++ bytes } in pcmu_loop (length t.buffer) [] t
