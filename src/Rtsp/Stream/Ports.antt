-- ===== src/Rtsp/Stream/Ports.antt =====
-- The ports of the RTSP clients of a stream (src/modules/rtsp-client/rtsp_stream.cpp), each of which
-- takes four from its own on.
use edge_device_webrtc.Rtsp.Stream.{
  stop_client, client_remove, ensure_client, set_track, fresh_client, stop, port_of,
  remove_connection, start_callback, new_stream, add_connection, store_track, create_client,
  RtspConnection, RtspStream,
}
use edge_device_webrtc.Prelude.{
  erase_key-kept, [], ◌∷◌, is_none, ◌^◌, ◌++◌, ◌%◌, Bool-cases, ◌≤◌, ◌+◌, none, erase_key, ap,
  put_key, Option-cases, refl, sym, inr, ◌∙◌, arith, inl, put_key-cases, ◌<◌, some, ◌≡◌, Option,
  ◌≢◌, find_key, Text, ℕ,
}

pub data Step (s : RtspStream) : RtspStream → Type 0 where
  adds : (ref : ℕ) (id : Text) (media : ℕ) → Step s (add_connection ref id media s)
  starts : (ref : ℕ) (error : Option Text) → Step s (start_callback ref error s)
  removes : (ref : ℕ) → Step s (remove_connection ref s)
  stops_all : Step s (stop s)

pub data Reach (base : Text) : RtspStream → Type 0 where
  created : Reach base (new_stream base)
  next : {s u : RtspStream} → Reach base s → Step s u → Reach base u

-- The client of a connection has the port of its number, which is below the counter.
abbrev Assigned : RtspStream → Type 0
Assigned s =
    (ref : ℕ) (c : RtspConnection)
    → find_key ref s.connections ≡ some c
    → (c.client < s.counter) × (c.port ≡ port_of c.client)

-- No client belongs to two connections.
abbrev Apart : RtspStream → Type 0
Apart s =
    (ref other : ℕ) (c d : RtspConnection)
    → ref ≢ other
    → find_key ref s.connections ≡ some c
    → find_key other s.connections ≡ some d
    → c.client ≢ d.client

create_client-Assigned : (ref : ℕ) (s : RtspStream) → Assigned s → Assigned (create_client ref s)
unfolding create_client
create_client-Assigned ref s h r c e =
    elim (put_key-cases r ref (fresh_client s) c s.connections e) [
      | inl (here, new) ↦ rw new (omega arith, refl)
      | inr (there, old) ↦ (omega (arith, (h r c old).0), (h r c old).1)
    ]

create_client-Apart :
    (ref : ℕ) (s : RtspStream) → Assigned s → Apart s → Apart (create_client ref s)
unfolding create_client fresh_client
create_client-Apart ref s h k r q c d ne e f =
    elim (put_key-cases r ref (fresh_client s) c s.connections e) [
      | inl (here, new) ↦ elim (put_key-cases q ref (fresh_client s) d s.connections f) [
        | inl (same, again) ↦ absurd (ne (here ∙ sym same))
        | inr (there, old) ↦
            let below = (h q d old).0 in
            let number : c.client ≡ s.counter = rw new refl in λ g. omega (arith, number, g, below)
      ]
      | inr (there, old) ↦ elim (put_key-cases q ref (fresh_client s) d s.connections f) [
        | inl (same, again) ↦
            let below = (h r c old).0 in
            let number : d.client ≡ s.counter = rw again refl in
            λ g. omega (arith, number, g, below)
        | inr (away, known) ↦ k r q c d ne old known
      ]
    ]

set_track-kept :
    (id : Text) (media : ℕ) (s : RtspStream) (c : RtspConnection)
    → ((set_track id media s c).client ≡ c.client) × ((set_track id media s c).port ≡ c.port)
unfolding set_track
set_track-kept id media s c = (ground arith, ground arith)

-- The connections of `u` are those of `s`, or some of them, with their clients and ports.
abbrev From : RtspStream → RtspStream → Type 0
From s u =
    (r : ℕ) (c : RtspConnection)
    → find_key r u.connections ≡ some c
    → (d : RtspConnection) × (find_key r s.connections ≡ some d)
      × (c.client ≡ d.client)
      × (c.port ≡ d.port)

abbrev Inv : RtspStream → Type 0
Inv s = Assigned s × Apart s

From-Inv : (s u : RtspStream) → From s u → u.counter ≡ s.counter → Inv s → Inv u
From-Inv s u from same (h, k) = (
  λ r c e.
      let (d, known, client, port) = from r c e in
      let (below, own) = h r d known in
      (omega (arith, same, client, below), rw client (port ∙ own)),
  λ r q c d ne e f g.
      let (x, found, first, _) = from r c e in
      let (y, other, second, _) = from q d f in k r q x y ne found other (sym first ∙ g ∙ second),
)

store_track-From :
    (ref : ℕ) (id : Text) (media : ℕ) (s : RtspStream) → From s (store_track ref id media s)
unfolding store_track
store_track-From ref id media s r c e = elim (Option-cases (find_key ref s.connections)) [
  | inl missing ↦
      let same : store_track ref id media s ≡ s = rw (missing, store_track) refl in
      (c, sym (ap (λ z. find_key r z.connections) same) ∙ e, refl, refl)
  | inr (x, known) ↦
      let same : store_track ref id media s
          ≡ record s { connections = put_key ref (set_track id media s x) s.connections } =
        rw (known, store_track) refl in
      let stored = sym (ap (λ z. find_key r z.connections) same) ∙ e in
      elim (put_key-cases r ref (set_track id media s x) c s.connections stored) [
        | inl (here, new) ↦
            let kept = set_track-kept id media s x in
            (x, rw here known, rw new kept.0, rw new kept.1)
        | inr (there, old) ↦ (c, old, refl, refl)
      ]
]

store_track-counter :
    (ref : ℕ) (id : Text) (media : ℕ) (s : RtspStream)
    → (store_track ref id media s).counter ≡ s.counter
unfolding store_track
store_track-counter ref id media s = elim (Option-cases (find_key ref s.connections)) [
  | inl missing ↦ rw (missing, store_track) refl
  | inr (x, known) ↦ rw (known, store_track) refl
]

ensure_client-Inv : (ref : ℕ) (s : RtspStream) → Inv s → Inv (ensure_client ref s)
unfolding ensure_client
ensure_client-Inv ref s (h, k) = elim (Bool-cases (is_none (find_key ref s.connections))) [
  | inl missing ↦ rw missing (create_client-Assigned ref s h, create_client-Apart ref s h k)
  | inr known ↦ rw known (h, k)
]

add_connection-Inv :
    (ref : ℕ) (id : Text) (media : ℕ) (s : RtspStream) → Inv s → Inv (add_connection ref id media s)
unfolding add_connection
add_connection-Inv ref id media s h =
    let t = ensure_client ref s in
    From-Inv t (store_track ref id media t) (store_track-From ref id media t)
      (store_track-counter ref id media t) (ensure_client-Inv ref s h)

start_callback-Inv :
    (ref : ℕ) (error : Option Text) (s : RtspStream) → Inv s → Inv (start_callback ref error s)
unfolding start_callback
start_callback-Inv ref (some error) s h = h
start_callback-Inv ref none s h = elim (Option-cases (find_key ref s.connections)) [
  | inl missing ↦ rw (missing, start_callback) h
  | inr (x, known) ↦ rw (known, start_callback) h
]

remove_connection-Inv : (ref : ℕ) (s : RtspStream) → Inv s → Inv (remove_connection ref s)
unfolding remove_connection
remove_connection-Inv ref s h = elim (Option-cases (find_key ref s.connections)) [
  | inl missing ↦ rw (missing, remove_connection) h
  | inr (x, known) ↦
      let u = record s {
        connections = erase_key ref s.connections;
        calls = s.calls ++ client_remove x.client ref ∷ stop_client x.client ∷ [];
      } in
      rw (known, remove_connection)
        (From-Inv s u (λ r c e. (c, erase_key-kept r ref c s.connections e, refl, refl)) refl h)
]

stop-Inv : (s : RtspStream) → Inv (stop s)
unfolding stop
stop-Inv s = (λ r c e. absurd cc, λ r q c d ne e f g. absurd cc)

Reach-Inv : {base : Text} {s : RtspStream} → Reach base s → Inv s
Reach-Inv created = (λ r c e. absurd cc, λ r q c d ne e f g. absurd cc)
Reach-Inv (next {s} reached (adds ref id media)) =
    add_connection-Inv ref id media s (Reach-Inv reached)
Reach-Inv (next {s} reached (starts ref error)) = start_callback-Inv ref error s (Reach-Inv reached)
Reach-Inv (next {s} reached (removes ref)) = remove_connection-Inv ref s (Reach-Inv reached)
Reach-Inv (next {s} reached stops_all) = stop-Inv s

-- Ports of clients whose numbers differ by less than 2^14, with what is added to them for RTP and RTCP.
ports_differ :
    (k l i j : ℕ)
    → k < 16384
    → l < 16384
    → k ≢ l
    → i < 4
    → j < 4
    → (port_of k + i) % 2 ^ 16 ≢ (port_of l + j) % 2 ^ 16
unfolding port_of
ports_differ k l i j hk hl ne hi hj e = ne (omega arith)

-- Whatever connections are added and removed, and whenever the clients report that they have
-- started, the four ports of one connection are never a port of another one, as long as no more
-- than 2^14 clients were created in all.
pub Reach-ports :
    (base : Text) (s : RtspStream) (ref other i j : ℕ) (c d : RtspConnection)
    → Reach base s
    → s.counter ≤ 2 ^ 14
    → ref ≢ other
    → find_key ref s.connections ≡ some c
    → find_key other s.connections ≡ some d
    → i < 4
    → j < 4
    → (c.port + i) % 2 ^ 16 ≢ (d.port + j) % 2 ^ 16
Reach-ports base s ref other i j c d reached few ne e f hi hj =
    let (assigned, apart) = Reach-Inv reached in
    let (below, own) = assigned ref c e in
    let (under, its) = assigned other d f in
    rw (own, its)
      (ports_differ c.client d.client i j (omega arith) (omega arith) (apart ref other c d ne e f)
        hi hj)
