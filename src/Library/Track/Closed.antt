-- ===== src/Library/Track/Closed.antt =====
-- What a media track does once its connection has closed.
use edge_device_webrtc.Prelude.{◌++◌, some, refl, ap, [], ◌∙◌, none, Text, ◌≡◌, ◌∷◌, Bool, List, ℕ}
use edge_device_webrtc.Library.Track.{
  call_close, track_called, receive_with, call_if_set, handle_track_message, connection_closed,
  MediaTrackImpl,
}

-- What the connection may still do to a track.
pub data Late : Type 0 where
  message : Bool → Text → Late
  close_again : Late

unfoldable pub late : Late → MediaTrackImpl → MediaTrackImpl
unfolding handle_track_message connection_closed
late (message binary d) s = handle_track_message binary d s
late close_again s = connection_closed s

unfoldable pub all_late : List Late → MediaTrackImpl → MediaTrackImpl
unfolding late
all_late [] s = s
all_late (l ∷ ls) s = all_late ls (late l s)

abbrev Quiet : MediaTrackImpl → Type 0
Quiet s = (s.recv_cb ≡ none) × (s.close_cb ≡ none)

late-Quiet :
    (l : Late) (s : MediaTrackImpl) → Quiet s → (Quiet (late l s)) × ((late l s).calls ≡ s.calls)
unfolding late handle_track_message receive_with connection_closed call_if_set
late-Quiet (message binary d) s (hr, hc) =
    let same = ap (λ o. receive_with o binary d s) hr in
    ((ap (λ t. t.recv_cb) same ∙ hr, ap (λ t. t.close_cb) same ∙ hc), ap (λ t. t.calls) same)
late-Quiet close_again s (hr, hc) = ((refl, refl), ap (λ o. (call_if_set o s).calls) hc)

all_late-Quiet : (ls : List Late) (s : MediaTrackImpl) → Quiet s → (all_late ls s).calls ≡ s.calls
unfolding all_late
all_late-Quiet [] s h = refl
all_late-Quiet (l ∷ ls) s h =
    let (q, same) = late-Quiet l s h in all_late-Quiet ls (late l s) q ∙ same

-- When its connection closes, a track calls its close callback, if it has one, and after that no
-- callback, whatever messages come and however often it is told that the connection has closed.
pub connection_closed-quiet :
    (cb : ℕ) (ls : List Late) (s : MediaTrackImpl)
    → s.close_cb ≡ some cb
    → (all_late ls (connection_closed s)).calls ≡ s.calls ++ call_close cb ∷ []
unfolding connection_closed call_if_set track_called
connection_closed-quiet cb ls s h =
    all_late-Quiet ls (connection_closed s) (refl, refl) ∙ ap (λ o. (call_if_set o s).calls) h
