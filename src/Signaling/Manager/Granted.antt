-- ===== src/Signaling/Manager/Granted.antt =====
-- Which signaling stream is given media tracks.
use edge_device_webrtc.Prelude.{
  Option-cases, inl, inr, Bool-cases, refl, append_assoc, false, ◌∙◌, append-nil, true, sym,
  if◌then◌else◌, codes, ap, [], ◌∷◌, ◌++◌, some, ◌≡◌, Bool, Text, List, ℕ,
}
use edge_device_webrtc.Signaling.Manager.{
  has_access, connection_add_media_tracks, add_to_first, Objects, new_stream, Manager,
}

-- Streams are opened one after the other: the objects made for them, with the connections.
unfoldable pub open_streams : List (ℕ × ℕ) → Manager → Manager
unfolding new_stream
open_streams [] s = s
open_streams ((k, ref) ∷ opened) s = open_streams opened (new_stream k ref s)

module _ (access : ℕ → Text → Bool) where
  -- The objects for the streams that the callback allows.
  abbrev granted : List (ℕ × ℕ) → List ℕ
  granted [] = []
  granted ((k, ref) ∷ opened) =
      let ks = granted opened in if access ref (codes "Webrtc:Signaling") then k ∷ ks else ks

  -- What a new stream does to the callback and the streams.
  new_stream-fields :
      (b : Bool) (k ref : ℕ) (s : Manager)
      → has_access s.access ref (codes "Webrtc:Signaling") ≡ b
      → ((new_stream k ref s).access ≡ s.access)
        × ((new_stream k ref s).streams ≡ s.streams ++ (if b then k ∷ [] else []))
  unfolding new_stream
  new_stream-fields true k ref s h = rw h (refl, refl)
  new_stream-fields false k ref s h = rw h (refl, sym (append-nil s.streams))

  granted-cons :
      (b : Bool) (k : ℕ) (ks : List ℕ)
      → (if b then k ∷ [] else []) ++ ks ≡ (if b then k ∷ ks else ks)
  granted-cons true k ks = refl
  granted-cons false k ks = refl

  open_streams-granted :
      (opened : List (ℕ × ℕ)) (s : Manager)
      → s.access ≡ some access
      → (open_streams opened s).streams ≡ s.streams ++ granted opened
  unfolding open_streams new_stream
  open_streams-granted [] s h = sym (append-nil s.streams)
  open_streams-granted ((k, ref) ∷ opened) s h =
      let b = access ref (codes "Webrtc:Signaling") in
      let (kept, streams) =
        new_stream-fields b k ref s (ap (λ o. has_access o ref (codes "Webrtc:Signaling")) h) in
      open_streams-granted opened (new_stream k ref s) (kept ∙ h)
      ∙ ap (λ l. l ++ granted opened) streams
      ∙ append_assoc s.streams (if b then k ∷ [] else []) (granted opened)
      ∙ ap (λ l. s.streams ++ l) (granted-cons b k (granted opened))

  -- A stream among those opened that was allowed, is alive, belongs to the connection and has
  -- taken the tracks.
  pub record Taken {E T : Type 0} (objects : Objects E T) (ref : ℕ) (tracks : List T)
      (opened : List (ℕ × ℕ)) : Type 0 where
    pub before : List (ℕ × ℕ)
    pub stream : ℕ
    pub client : ℕ
    pub after : List (ℕ × ℕ)
    pub object : E
    pub is_opened : opened ≡ before ++ (stream, client) ∷ after
    pub is_allowed : access client (codes "Webrtc:Signaling") ≡ true
    pub is_alive : objects.lock stream ≡ some object
    pub is_connected : objects.is_connection ref object ≡ true
    pub has_tracks : objects.create_tracks tracks object ≡ true

  module _ {E T : Type 0} (objects : Objects E T) where
    later-Taken :
        (ref : ℕ) (tracks : List T) (o : ℕ × ℕ) (opened : List (ℕ × ℕ))
        → Taken objects ref tracks opened
        → Taken objects ref tracks (o ∷ opened)
    later-Taken ref tracks o opened h = record {
      before = o ∷ h.before;
      stream = h.stream;
      client = h.client;
      after = h.after;
      object = h.object;
      is_opened = ap (◌∷◌ o) h.is_opened;
      is_allowed = h.is_allowed;
      is_alive = h.is_alive;
      is_connected = h.is_connected;
      has_tracks = h.has_tracks;
    }

    add_to_first-Taken :
        (ref : ℕ) (tracks : List T) (opened : List (ℕ × ℕ))
        → add_to_first objects ref tracks (granted opened) ≡ true
        → Taken objects ref tracks opened
    unfolding add_to_first
    add_to_first-Taken ref tracks [] h = absurd cc
    add_to_first-Taken ref tracks ((k, c) ∷ opened) h =
        let later : add_to_first objects ref tracks (granted opened) ≡ true
            → Taken objects ref tracks ((k, c) ∷ opened) =
          λ e. later-Taken ref tracks (k, c) opened (add_to_first-Taken ref tracks opened e) in
        elim (Bool-cases (access c (codes "Webrtc:Signaling"))) [
          | inr denied ↦ later (rw denied at h)
          | inl allowed ↦ elim (Option-cases (objects.lock k)) [
            | inl dead ↦ later (rw (allowed, dead, add_to_first) at h)
            | inr (e, there) ↦ elim (Bool-cases (objects.is_connection ref e)) [
              | inr other ↦ later (rw (allowed, there, other, add_to_first) at h)
              | inl same ↦ record {
                before = [];
                stream = k;
                client = c;
                after = opened;
                object = e;
                is_opened = refl;
                is_allowed = allowed;
                is_alive = there;
                is_connected = same;
                has_tracks = rw (allowed, there, same, add_to_first) at h;
              }
            ]
          ]
        ]

    -- If media tracks are added to a connection by a manager that had no stream before these were
    -- opened and whose access callback was set, then one of these signaling streams belongs to
    -- the connection, was allowed by the callback when it was opened, is still alive, and has
    -- taken the tracks.
    pub connection_add-Taken :
        (ref : ℕ) (tracks : List T) (opened : List (ℕ × ℕ)) (s : Manager)
        → s.access ≡ some access
        → s.streams ≡ []
        → connection_add_media_tracks objects ref tracks (open_streams opened s) ≡ true
        → Taken objects ref tracks opened
    unfolding connection_add_media_tracks
    connection_add-Taken ref tracks opened s ha hs h = add_to_first-Taken ref tracks opened (
        sym (
          ap (add_to_first objects ref tracks)
            (open_streams-granted opened s ha ∙ ap (λ l. l ++ granted opened) hs))
        ∙ h)
