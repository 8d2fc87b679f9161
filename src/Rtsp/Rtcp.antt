-- ===== src/Rtsp/Rtcp.antt =====
-- The receiver of RTCP reports over UDP: `RtcpClient` of src/modules/rtsp-client/rtcp_client.hpp.
use edge_device_webrtc.Prelude.{
  refl, append_assoc, ◌∙◌, inr, inl, ap, append-nil, Bool-cases, sym, none, length, ◌++◌, some, ltb,
  [], ◌≡◌, ◌∷◌, if◌then◌else◌, false, true, Text, Option, Bool, List, ℕ,
}

-- `socket` is whether `rtcpSock_` is not 0, `thread` whether `rtcpThread_` can be joined, and `sent`
-- the reports sent, each with its receiver.
pub record RtcpClient : Type 0 where
  pub stopped : Bool
  pub socket : Bool
  pub thread : Bool
  pub sent : List (ℕ × Text)

abbrev pub new_rtcp : RtcpClient
new_rtcp = record { stopped = true; socket = false; thread = false; sent = [] }

-- `bound` is whether `bind` succeeds; with the client comes whether `start` returns or throws.
unfoldable pub start_rtcp : Bool → RtcpClient → RtcpClient × Bool
start_rtcp bound s =
    if bound
    then (record s { stopped = false; socket = true; thread = true }, true)
    else (record s { stopped = false; socket = true }, false)

-- `join` of a thread that does not run throws: `none`. The socket keeps its number.
unfoldable pub stop_rtcp : RtcpClient → Option RtcpClient
stop_rtcp s = if s.thread then some (record s { stopped = true; thread = false }) else none

module _ (report : Text → Text) where
  -- What the thread makes of the data from a sender; `report` is libdatachannel's receiver report for
  -- a sender report.
  unfoldable pub answer_report : ℕ → Text → RtcpClient → RtcpClient
  answer_report sender d s =
      if ltb (length d) 28 then s else record s { sent = s.sent ++ (sender, report d) ∷ [] }

  -- The loop, on what `recvfrom` gives; it ends with the first error or when the client has stopped.
  unfoldable pub rtcp_runner : List (Option (ℕ × Text)) → RtcpClient → RtcpClient
  unfolding answer_report
  rtcp_runner [] s = s
  rtcp_runner (none ∷ rs) s = s
  rtcp_runner (some (sender, d) ∷ rs) s =
      let later = rtcp_runner rs (answer_report sender d s) in if s.stopped then s else later

  -- The data that the thread answers.
  abbrev pub answered : List (Option (ℕ × Text)) → List (ℕ × Text)
  answered [] = []
  answered (none ∷ rs) = []
  answered (some (sender, d) ∷ rs) =
      (if ltb (length d) 28 then [] else (sender, report d) ∷ []) ++ answered rs

  answer_report-fields :
      (sender : ℕ) (d : Text) (s : RtcpClient)
      → ((answer_report sender d s).stopped ≡ s.stopped)
        × ((answer_report sender d s).sent
            ≡ s.sent ++ (if ltb (length d) 28 then [] else (sender, report d) ∷ []))
  unfolding answer_report
  answer_report-fields sender d s = elim (Bool-cases (ltb (length d) 28)) [
    | inl short ↦ rw short (refl, sym (append-nil s.sent))
    | inr long ↦ rw long (refl, refl)
  ]

  -- While it runs, the client sends one report for every sender report up to the first error, to its
  -- sender and in order, and none for data too short for one.
  pub rtcp_runner-answers :
      (rs : List (Option (ℕ × Text))) (s : RtcpClient)
      → s.stopped ≡ false
      → (rtcp_runner rs s).sent ≡ s.sent ++ answered rs
  unfolding rtcp_runner
  rtcp_runner-answers [] s h = sym (append-nil s.sent)
  rtcp_runner-answers (none ∷ rs) s h = sym (append-nil s.sent)
  rtcp_runner-answers (some (sender, d) ∷ rs) s h =
      let (kept, one) = answer_report-fields sender d s in
      ap (λ b. (if b then s else rtcp_runner rs (answer_report sender d s)).sent) h
      ∙ rtcp_runner-answers rs (answer_report sender d s) (kept ∙ h)
      ∙ ap (λ l. l ++ answered rs) one
      ∙ append_assoc s.sent (if ltb (length d) 28 then [] else (sender, report d) ∷ [])
          (answered rs)
