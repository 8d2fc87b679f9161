-- ===== src/Demo/FileStream/Sent.antt =====
-- What the file stream of the demo device sends.
use mathlib.Core.Path.{ap₂}
use edge_device_webrtc.Prelude.{
  ◌≤◌, leb→le, take-append-drop, take_all, ltb, length-drop, drop, inl, inr, leb, Bool-cases, ◌*◌,
  ◌<◌, not, length, take, append-nil, ◌∙◌, ap, append_assoc, sym, arith, refl, zero, true,
  if◌then◌else◌, [], ◌∷◌, ◌==◌, suc, some, none, ◌≡◌, ◌++◌, false, Text, Bool, Option, List, ℕ,
}
use edge_device_webrtc.Demo.FileStream.{
  opened_input, accepting, writing, Input, buffer_size, read_file, do_stream_file, closing,
  complete_operation, run_posted, Operation, complete, stream_file, run_job, serve, FileApp,
}

abbrev is_stream : ℕ → Option ℕ → Bool
is_stream k none = false
is_stream k (some j) = k == j

-- The data that was written to a stream.
abbrev pub data_of : ℕ → List (Option ℕ × Text) → Text
data_of k [] = []
data_of k ((o, d) ∷ ws) = (if is_stream k o then d else []) ++ data_of k ws

==_refl : (k : ℕ) → (k == k) ≡ true
==_refl k = ground arith

data_of-append :
    (k : ℕ) (ws : List (Option ℕ × Text)) (d : Text)
    → data_of k (ws ++ (some k, d) ∷ []) ≡ data_of k ws ++ d
data_of-append k [] d = rw (==_refl k) (append-nil d)
data_of-append k ((o, c) ∷ ws) d =
    rw (data_of-append k ws d)
      (sym (append_assoc (if is_stream k o then c else []) (data_of k ws) d))

below : (a b : ℕ) → leb a b ≡ false → b ≤ a
below a b h = ground arith

module _ (file : Option Text) where
  -- A stream that sends what is left of the file.
  record Sending (k : ℕ) (r : Text) (s : FileApp) : Type 0 where
    streams : s.file_stream ≡ some k
    job : s.posted ≡ some stream_file
    no_future : s.pending ≡ none
    left : s.input ≡ record { rest = r; good = true; eof = false }

  -- A stream whose file has been read to its end.
  record AtEnd (k : ℕ) (s : FileApp) : Type 0 where
    streams : s.file_stream ≡ some k
    job : s.posted ≡ some stream_file
    at_end : s.input.eof ≡ true

  record Idle (s : FileApp) : Type 0 where
    no_job : s.posted ≡ none
    no_future : s.pending ≡ none

  -- A round in which the job leaves the future pending.
  round :
      (s t : FileApp) (o : Operation)
      → run_job file s ≡ t
      → t.pending ≡ some o
      → complete true (run_job file s) ≡ complete_operation (some o) true t
  unfolding complete
  round s t o h k = ap (complete true) h ∙ ap (λ p. complete_operation p true t) k

  serve-Idle : (n : ℕ) (s : FileApp) → Idle s → serve file n s ≡ s
  unfolding serve run_job run_posted complete_operation
  serve-Idle zero s h = refl
  serve-Idle (suc n) s h =
      let waits : run_job file s ≡ s = ap (λ j. run_posted file j s) h.no_job in
      let stays : complete true (run_job file s) ≡ s =
        ap (complete true) waits ∙ ap (λ p. complete_operation p true s) h.no_future in
      ap (serve file n) stays ∙ serve-Idle n s h

  abbrev closed : FileApp → FileApp
  closed s = record s { pending = none; posted = none; freed = s.freed ++ s.file_stream ∷ [] }

  do_stream_file-end :
      (s : FileApp) → s.input.eof ≡ true → do_stream_file s ≡ record s { pending = some closing }
  unfolding do_stream_file
  do_stream_file-end s h = rw h refl

  round-Ending : (k : ℕ) (s : FileApp) → AtEnd k s → complete true (run_job file s) ≡ closed s
  unfolding run_job run_posted complete_operation
  round-Ending k s h =
      round s (record s { posted = none; pending = some closing }) closing
        (ap (λ j. run_posted file j s) h.job
          ∙ do_stream_file-end (record s { posted = none }) h.at_end)
        refl

  -- Only the end of a file is left, so that the stream is closed and freed.
  serve-Ending :
      (n k : ℕ) (s : FileApp)
      → AtEnd k s
      → ((serve file (suc n) s).freed ≡ s.freed ++ some k ∷ [])
        × ((serve file (suc n) s).written ≡ s.written)
  unfolding serve
  serve-Ending n k s h =
      let end : serve file (suc n) s ≡ closed s =
        ap (serve file n) (round-Ending k s h)
        ∙ serve-Idle n (closed s) (record { no_job = refl; no_future = refl }) in
      (ap (λ t. t.freed) end ∙ ap (λ o. s.freed ++ o ∷ []) h.streams, ap (λ t. t.written) end)

  abbrev fresh : Text → Input
  fresh r = record { rest = r; good = true; eof = false }

  -- The call that writes what is read of the rest.
  abbrev wrote : ℕ → Text → FileApp → FileApp
  wrote k r s = record s {
    input = (read_file (fresh r)).1;
    written = s.written ++ (some k, take buffer_size r) ∷ [];
    pending = some writing;
  }

  write_from : Option ℕ → Input → FileApp → FileApp
  write_from o f s =
      if not f.eof
      then record s {
        input = (read_file f).1;
        written = s.written ++ (o, (read_file f).0) ∷ [];
        pending = some writing;
      }
      else record s { pending = some closing }

  do_stream_file-write :
      (k : ℕ) (r : Text) (s : FileApp)
      → s.file_stream ≡ some k
      → s.input ≡ fresh r
      → do_stream_file s ≡ wrote k r s
  unfolding do_stream_file write_from read_file
  do_stream_file-write k r s hs hi =
      ap (λ o. write_from o s.input s) hs ∙ ap (λ f. write_from (some k) f s) hi

  -- The state after a round.
  abbrev next : ℕ → Text → FileApp → FileApp
  next k r s = record (wrote k r (record s { posted = none })) {
    pending = none;
    posted = some stream_file;
  }

  round-Sending :
      (k : ℕ) (r : Text) (s : FileApp) → Sending k r s → complete true (run_job file s) ≡ next k r s
  unfolding run_job run_posted complete_operation
  round-Sending k r s h =
      round s (wrote k r (record s { posted = none })) writing
        (ap (λ j. run_posted file j s) h.job
          ∙ do_stream_file-write k r (record s { posted = none }) h.streams h.left)
        refl

  shorter :
      (n : ℕ) (r : Text)
      → leb buffer_size (length r) ≡ true
      → length r < buffer_size * suc n
      → length (drop buffer_size r) < buffer_size * n
  shorter n r more h = omega (arith, length-drop buffer_size r, leb→le buffer_size (length r) more)

  not_full : (r : Text) → leb buffer_size (length r) ≡ false → length r ≤ buffer_size
  not_full r h = below buffer_size (length r) h

  next-Sending :
      (k : ℕ) (r : Text) (s : FileApp)
      → leb buffer_size (length r) ≡ true
      → Sending k r s
      → Sending k (drop buffer_size r) (next k r s)
  unfolding read_file
  next-Sending k r s more h =
      let not_end : ltb (length r) buffer_size ≡ false = ground arith in
      record {
        streams = h.streams;
        job = refl;
        no_future = refl;
        left = ap₂ (λ b e. record { rest = drop buffer_size r; good = b; eof = e }) more not_end;
      }

  next-Ending :
      (k : ℕ) (r : Text) (s : FileApp)
      → leb buffer_size (length r) ≡ false
      → Sending k r s
      → AtEnd k (next k r s)
  unfolding read_file
  next-Ending k r s last h = record { streams = h.streams; job = refl; at_end = ground arith }

  serve-Sending :
      (n k : ℕ) (r : Text) (s : FileApp)
      → Sending k r s
      → length r < buffer_size * n
      → ((serve file (suc n) s).freed ≡ s.freed ++ some k ∷ [])
        × (data_of k (serve file (suc n) s).written ≡ data_of k s.written ++ r)
  unfolding serve
  serve-Sending zero k r s h hn = absurd (omega arith)
  serve-Sending (suc n) k r s h hn =
      let one = ap (serve file (suc n)) (round-Sending k r s h) in
      elim (Bool-cases (leb buffer_size (length r))) [
        | inr last ↦
            let (freed, sent) = serve-Ending n k (next k r s) (next-Ending k r s last h) in
            let short = take_all buffer_size r (not_full r last) in
            (
              ap (λ t. t.freed) one ∙ freed,
              ap (λ t. data_of k t.written) one
                  ∙ ap (data_of k) sent
                  ∙ data_of-append k s.written (take buffer_size r)
                  ∙ ap (λ d. data_of k s.written ++ d) short,
            )
        | inl more ↦
            let (freed, sent) =
              serve-Sending n k (drop buffer_size r) (next k r s) (next-Sending k r s more h)
                (shorter n r more hn) in
            (
              ap (λ t. t.freed) one ∙ freed,
              ap (λ t. data_of k t.written) one
                  ∙ sent
                  ∙ ap (λ d. d ++ drop buffer_size r)
                      (data_of-append k s.written (take buffer_size r))
                  ∙ append_assoc (data_of k s.written) (take buffer_size r) (drop buffer_size r)
                  ∙ ap (λ d. data_of k s.written ++ d) (take-append-drop buffer_size r),
            )
      ]

  -- A stream that was accepted, when the file exists and the SDK reports no error, is sent the
  -- contents of the file and nothing else and then freed once, after `n + 1` rounds for every `n`
  -- such that the file is shorter than `n` buffers: more rounds than needed change nothing.
  pub serve-sends_file :
      (n k : ℕ) (contents : Text) (s : FileApp)
      → file ≡ some contents
      → s.file_stream ≡ some k
      → s.pending ≡ some accepting
      → length contents < buffer_size * n
      → ((serve file (suc n) (complete true s)).freed ≡ s.freed ++ some k ∷ [])
        × (data_of k (serve file (suc n) (complete true s)).written
            ≡ data_of k s.written ++ contents)
  unfolding serve run_job run_posted complete complete_operation
  serve-sends_file n k contents s hf hs hp hn =
      let s1 : FileApp = record s {
        pending = none;
        posted = some stream_file;
        input = fresh contents;
      } in
      let s2 : FileApp = record s { pending = none; posted = none } in
      let accepted : run_job file (complete true s) ≡ run_job file s1 =
        ap (λ p. run_job file (complete_operation p true s)) hp
        ∙ ap (λ f. do_stream_file (record s2 { input = opened_input f })) hf in
      let (freed, sent) =
        serve-Sending n k contents s1
          (record { streams = hs; job = refl; no_future = refl; left = refl }) hn in
      let one = ap (λ t. serve file n (complete true t)) accepted in
      (ap (λ t. t.freed) one ∙ freed, ap (λ t. data_of k t.written) one ∙ sent)
