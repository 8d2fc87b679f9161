-- ===== src/Demo/FileStream/Live.antt =====
-- The stream of the demo device while something is still to happen on it.
use edge_device_webrtc.Prelude.{false, ◌&&◌, true, ◌≡◌, refl, ◌||◌, is_some, Bool, Text, Option, ℕ}
use edge_device_webrtc.Demo.FileStream.{run_job, on_stream, new_app, complete, FileApp}
use edge_device_webrtc.Demo.FileStream.Invariant.{
  run_posted-Inv, complete_operation-Inv, on_stream-Inv, over-Inv, Inv, Serves,
}

module _ (file : Option Text) where
  -- Streams are opened, operations end with or without an error, and jobs run, in any order.
  pub data Step (s : FileApp) : FileApp → Type 0 where
    opens : (allowed : Bool) → Step s (on_stream allowed s)
    completes : (ok : Bool) → Step s (complete ok s)
    runs : Step s (run_job file s)

  pub data Reach : FileApp → Type 0 where
    created : Reach new_app
    next : {s t : FileApp} → Reach s → Step s t → Reach t

  Step-Inv : (s t : FileApp) → Step s t → Inv s → Inv t
  unfolding complete run_job
  Step-Inv s _ (opens allowed) h = on_stream-Inv allowed s h
  Step-Inv s _ (completes ok) h = complete_operation-Inv s.pending ok s h refl
  Step-Inv s _ runs h = run_posted-Inv file s.posted s h refl

  Reach-Inv : (s : FileApp) → Reach s → Inv s
  Reach-Inv _ created = over-Inv new_app refl tt (λ k bad. absurd cc)
  Reach-Inv t (next {s} r step) = Step-Inv s t step (Reach-Inv s r)

  -- Whenever an operation of the SDK or a job is outstanding, it is the only one, and it is for one
  -- stream that has not been freed and for which the object keeps itself alive.
  pub Reach-Serves :
      (s : FileApp)
      → Reach s
      → (is_some s.pending || is_some s.posted) ≡ true
      → ((is_some s.pending && is_some s.posted) ≡ false) × ((k : ℕ) × Serves k s)
  Reach-Serves s r busy = let h = Reach-Inv s r in (h.one_at_once, h.serves busy)
