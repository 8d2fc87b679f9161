-- ===== src/Demo/TrackEvent/Decision.antt =====
-- Which stream a track is given to (examples/webrtc-demo/main.cpp).
use edge_device_webrtc.Connection.State.{access_denied, invalid_codecs, unknown_track_id, ok}
use mathlib.Core.Option
use edge_device_webrtc.Prelude.{
  is_empty, arith, ap, inr, sym, inl, ◌∙◌, Bool-cases, ◌>>=◌, true, refl, none, [], ◌+◌, length,
  ◌∷◌, ◌++◌, some, false, ◌≡◌, if◌then◌else◌, Option, All, List, Bool, ℕ, Text,
}
use edge_device_webrtc.Demo.Streams.{MediaStream}
use edge_device_webrtc.Demo.TrackEvent.{handle_track, Handled, offer_to_streams}

module _ {S T : Type 0} (stream : MediaStream S T) where
  -- No stream of these has the track.
  abbrev pub Unknown : Text → List S → Type 0
  Unknown feed ms = All (λ m. stream.is_track feed m ≡ false) ms

  abbrev given : T → ℕ → List S → S → Handled S T
  given u place after n = record { medias = n ∷ after; track = u; error = ok; closes = some place }

  -- What the stream `m` at the place `i` makes of a track that only it has, with the streams
  -- `after` behind it.
  abbrev pub decision : ℕ → T → ℕ → S → List S → Option (Handled S T)
  decision ref t i m after =
      let (matched, u) = stream.match_media t m in
      if matched
      then Option.map (given u i after) (stream.add_connection ref u m)
      else some (record { medias = m ∷ after; track = u; error = invalid_codecs; closes = none })

  -- The same answer with `before` in front of the streams.
  abbrev pub behind : List S → Handled S T → Handled S T
  behind before h = record h { medias = before ++ h.medias }

  offer_to_streams-Unknown :
      (feed : Text) (ref i : ℕ) (t : T) (found : Bool) (closes : Option ℕ) (ms : List S)
      → Unknown feed ms
      → offer_to_streams stream feed ref i t found closes ms
        ≡ some (record {
          medias = ms;
          track = t;
          error = if found then ok else unknown_track_id;
          closes = closes;
        })
  unfolding offer_to_streams
  offer_to_streams-Unknown feed ref i t found closes [] h = refl
  offer_to_streams-Unknown feed ref i t found closes (m ∷ ms) (h, k) =
      rw (h, offer_to_streams-Unknown feed ref (i + 1) t found closes ms k) refl

  ended : T → ℕ → List S → Handled S T
  ended u i after = record { medias = after; track = u; error = ok; closes = some i }

  taken :
      (o : Option S) (u : T) (i : ℕ) (after : List S)
      → (do n ← o; h ← some (ended u i after); some (record h { medias = n ∷ h.medias }))
        ≡ Option.map (given u i after) o
  unfolding ended
  taken none u i after = refl
  taken (some n) u i after = refl

  passed_by :
      (o : Option (Handled S T)) (m : S) (before : List S)
      → (do h ← Option.map (behind before) o; some (record h { medias = m ∷ h.medias }))
        ≡ Option.map (behind (m ∷ before)) o
  passed_by none m before = refl
  passed_by (some h) m before = refl

  map-behind_none : (o : Option (Handled S T)) → Option.map (behind []) o ≡ o
  map-behind_none none = refl
  map-behind_none (some h) = refl

  offer_to_streams-first :
      (feed : Text) (ref i : ℕ) (t : T) (after : List S) (m : S)
      → Unknown feed after
      → stream.is_track feed m ≡ true
      → offer_to_streams stream feed ref i t false none (m ∷ after) ≡ decision ref t i m after
  unfolding offer_to_streams ended
  offer_to_streams-first feed ref i t after m ha hm =
      let (matched, u) = stream.match_media t m in
      rw (hm, offer_to_streams-Unknown feed ref (i + 1) u true (some i) after ha)
        (elim (Bool-cases matched) [
          | inl h ↦ rw h (taken (stream.add_connection ref u m) u i after)
          | inr h ↦ rw h refl
        ])

  offer_to_streams-decision :
      (feed : Text) (ref i : ℕ) (t : T) (before after : List S) (m : S)
      → Unknown feed before
      → Unknown feed after
      → stream.is_track feed m ≡ true
      → offer_to_streams stream feed ref i t false none (before ++ m ∷ after)
        ≡ Option.map (behind before) (decision ref t (i + length before) m after)
  unfolding offer_to_streams
  offer_to_streams-decision feed ref i t [] after m hb ha hm =
      offer_to_streams-first feed ref i t after m ha hm
      ∙ sym (map-behind_none (decision ref t i m after))
      ∙ ap (λ k. Option.map (behind []) (decision ref t k m after)) (omega arith)
  offer_to_streams-decision feed ref i t (b ∷ before) after m (h, hb) ha hm =
      rw (h, offer_to_streams-decision feed ref (i + 1) t before after m hb ha hm)
        (passed_by (decision ref t (i + 1 + length before) m after) b before
          ∙ ap (λ k. Option.map (behind (b ∷ before)) (decision ref t k m after)) (omega arith))

  -- A track with an ID that is not empty and that only the stream `m` has is refused by IAM with
  -- all streams as they were, or else decided by this stream alone: it is given the connection if
  -- a codec matches, and the close callback removes the connection from it.
  pub handle_track-decision :
      (allowed : Bool) (ref : ℕ) (t : T) (before after : List S) (m : S)
      → is_empty (stream.track_id t) ≡ false
      → Unknown (stream.track_id t) before
      → Unknown (stream.track_id t) after
      → stream.is_track (stream.track_id t) m ≡ true
      → handle_track stream allowed ref t (before ++ m ∷ after) ≡ (
          if allowed
          then Option.map (behind before) (decision ref t (length before) m after)
          else some (record {
            medias = before ++ m ∷ after;
            track = t;
            error = access_denied;
            closes = none;
          }))
  unfolding handle_track
  handle_track-decision false ref t before after m he hb ha hm = refl
  handle_track-decision true ref t before after m he hb ha hm = rw he (
      offer_to_streams-decision (stream.track_id t) ref 0 t before after m hb ha hm
      ∙ ap (λ k. Option.map (behind before) (decision ref t k m after)) (omega arith))
