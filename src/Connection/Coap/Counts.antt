-- ===== src/Connection/Coap/Counts.antt =====
-- How often a number stands in a list, and as a key in a map.
use edge_device_webrtc.Connection.Coap.{CoapCall, execute, send_text}
use edge_device_webrtc.Prelude.{
  none, arith, ◌==◌, ◌<◌, some, if◌then◌else◌, [], ◌≡◌, ◌∷◌, ◌++◌, find_key, erase_key, ◌+◌, List,
  ℕ,
}

abbrev pub count : ℕ → List ℕ → ℕ
count k [] = 0
count k (n ∷ ns) = (if k == n then 1 else 0) + count k ns

abbrev pub count_key {ℓ} : {A : Type ℓ} → ℕ → List (ℕ × A) → ℕ
count_key k [] = 0
count_key k ((n, a) ∷ m) = (if k == n then 1 else 0) + count_key k m

pub count-append :
    (k n : ℕ) (ns : List ℕ) → count k (ns ++ n ∷ []) ≡ count k ns + (if k == n then 1 else 0)
count-append k n [] = omega arith
count-append k n (m ∷ ns) = omega (arith, count-append k n ns)

pub count_key-append :
    {A : Type 0} (k n : ℕ) (a : A) (m : List (ℕ × A))
    → count_key k (m ++ (n, a) ∷ []) ≡ count_key k m + (if k == n then 1 else 0)
count_key-append k n a [] = omega arith
count_key-append k n a ((l, b) ∷ m) = omega (arith, count_key-append k n a m)

pub count_key-erase :
    {A : Type 0} (k n : ℕ) (m : List (ℕ × A))
    → count_key k (erase_key n m) ≡ (if k == n then 0 else count_key k m)
count_key-erase k n [] = ground arith
count_key-erase k n ((l, b) ∷ m) = ground (arith, count_key-erase k n m)

pub count_key-found :
    {A : Type 0} (k : ℕ) (a : A) (m : List (ℕ × A)) → find_key k m ≡ some a → 0 < count_key k m
count_key-found k a [] h = absurd cc
count_key-found k a ((l, b) ∷ m) h = ground (arith, count_key-found k a m)

-- How often a response to a request is sent.
abbrev pub count_sent : ℕ → List CoapCall → ℕ
count_sent k [] = 0
count_sent k (execute n r ∷ cs) = count_sent k cs
count_sent k (send_text none t ∷ cs) = count_sent k cs
count_sent k (send_text (some n) t ∷ cs) = (if k == n then 1 else 0) + count_sent k cs

pub count_sent-append :
    (k : ℕ) (cs ds : List CoapCall) → count_sent k (cs ++ ds) ≡ count_sent k cs + count_sent k ds
count_sent-append k [] ds = omega arith
count_sent-append k (execute n r ∷ cs) ds = count_sent-append k cs ds
count_sent-append k (send_text none t ∷ cs) ds = count_sent-append k cs ds
count_sent-append k (send_text (some n) t ∷ cs) ds = omega (arith, count_sent-append k cs ds)
