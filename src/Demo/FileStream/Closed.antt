-- ===== src/Demo/FileStream/Closed.antt =====
-- What becomes of the streams that are opened after one has sent its file.
use edge_device_webrtc.Prelude.{
  append-nil, sym, append_assoc, Option, ◌∙◌, ap, refl, none, ◌+◌, true, ◌++◌, some, [], ◌≡◌, ◌∷◌,
  Bool, List, ℕ,
}
use edge_device_webrtc.Demo.FileStream.{
  closing, file_stream_closed, complete_operation, on_stream, complete, FileApp,
}

-- Streams are opened one after the other; each of the list says whether IAM allows it.
unfoldable pub open_all : List Bool → FileApp → FileApp
unfolding on_stream
open_all [] s = s
open_all (allowed ∷ rest) s = open_all rest (on_stream allowed s)

-- The streams that are opened get consecutive numbers; these are those of the list, from `n` on.
abbrev pub new_ids : ℕ → List Bool → List (Option ℕ)
new_ids n [] = []
new_ids n (b ∷ bs) = some n ∷ new_ids (n + 1) bs

-- While there is a stream, another is freed at once.
on_stream-busy :
    (k : ℕ) (allowed : Bool) (s : FileApp)
    → s.file_stream ≡ some k
    → on_stream allowed s
      ≡ record s { freed = s.freed ++ some s.opened ∷ []; opened = s.opened + 1 }
unfolding on_stream
on_stream-busy k allowed s h = rw h refl

open_all-busy :
    (k : ℕ) (bs : List Bool) (s : FileApp)
    → s.file_stream ≡ some k
    → ((open_all bs s).file_stream ≡ some k)
      × ((open_all bs s).written ≡ s.written)
      × ((open_all bs s).freed ≡ s.freed ++ new_ids s.opened bs)
unfolding open_all
open_all-busy k [] s h = (h, refl, sym (append-nil s.freed))
open_all-busy k (b ∷ bs) s h =
    let t : FileApp = record s { freed = s.freed ++ some s.opened ∷ []; opened = s.opened + 1 } in
    let (kept, silent, freed) = open_all-busy k bs t h in
    let one = ap (open_all bs) (on_stream-busy k b s h) in
    (
      ap (λ u. u.file_stream) one ∙ kept,
      ap (λ u. u.written) one ∙ silent,
      ap (λ u. u.freed) one
          ∙ freed
          ∙ append_assoc s.freed (some s.opened ∷ []) (new_ids (s.opened + 1) bs),
    )

-- After a stream was closed without an error, that stream is freed, and then every stream that is
-- opened is freed at once, in the order in which they are opened, each exactly once, and nothing
-- else is freed; nothing is written, and the device keeps the stream that was freed.
pub closed_stream_refuses :
    (k : ℕ) (bs : List Bool) (s : FileApp)
    → s.file_stream ≡ some k
    → s.pending ≡ some closing
    → ((open_all bs (complete true s)).file_stream ≡ some k)
      × ((open_all bs (complete true s)).written ≡ s.written)
      × ((open_all bs (complete true s)).freed ≡ s.freed ++ some k ∷ new_ids s.opened bs)
unfolding complete complete_operation file_stream_closed
closed_stream_refuses k bs s h hp =
    let t : FileApp = record s { pending = none; freed = s.freed ++ s.file_stream ∷ [] } in
    let one = ap (λ p. open_all bs (complete_operation p true s)) hp in
    let (kept, silent, freed) = open_all-busy k bs t h in
    (
      ap (λ u. u.file_stream) one ∙ kept,
      ap (λ u. u.written) one ∙ silent,
      ap (λ u. u.freed) one
          ∙ freed
          ∙ append_assoc s.freed (s.file_stream ∷ []) (new_ids s.opened bs)
          ∙ ap (λ i. s.freed ++ i ∷ new_ids s.opened bs) h,
    )
