-- ===== src/Packetizer/Tests.antt =====
-- The theorems on src/modules/rtp-packetizer at concrete inputs.
use edge_device_webrtc.Packetizer.H264.Nal.{nal_messages}
use edge_device_webrtc.Prelude.{arith, ◌≡◌, replicate, ◌∷◌, [], Text, All}
use edge_device_webrtc.Packetizer.Pcmu.Payloads.{pcmu_incoming-Sends, Sends}
use edge_device_webrtc.Packetizer.Pcmu.{pcmu_incoming, Pcmu}
use edge_device_webrtc.Packetizer.Library.{Outgoing}
use edge_device_webrtc.Packetizer.H264.Fragments.{
  nal_messages_reassemble, reassembled, IsFragmentOf,
}

-- A packetizer that hands the messages on as they are.
abbrev plain : Outgoing Unit
plain = record { outgoing = λ ts msgs p. (msgs, p) }

abbrev silent : Pcmu Unit
silent = record { buffer = []; timestamp = 5; packetizer = tt; handed = [] }

abbrev samples : Text
samples = 1 ∷ 2 ∷ replicate 1030 255

pcmu_incoming-Sends_example :
    Sends (record silent { buffer = samples }) (pcmu_incoming plain samples silent).0
pcmu_incoming-Sends_example = pcmu_incoming-Sends plain samples silent

nal_messages_reassemble_example :
    All (IsFragmentOf 101) (nal_messages (101 ∷ replicate 1300 7))
    × (reassembled (nal_messages (101 ∷ replicate 1300 7)) ≡ replicate 1300 7)
nal_messages_reassemble_example =
    nal_messages_reassemble 101 (replicate 1300 7) (omega arith) (omega arith)
