-- ===== src/Prelude/Maps.antt =====
-- `std::map` with numbers as keys: the entries in the order of their keys.
use Prim.Native.Nat.{ℕ}
use mathlib.Core.Path.{◌≡◌, refl, sym, ◌∙◌}
use mathlib.Core.Logic.{◌⊎◌, inl, inr, ◌≢◌}
use mathlib.Core.Bool.{false}
use mathlib.Core.List.{List, [], ◌∷◌}
use mathlib.Core.Option.{Option, none, some}
use native.Mathlib.Omega.{arith}
use edge_device_webrtc.Prelude.Tests.{Bool-cases, ==_iff, ◌==◌, ltb, if◌then◌else◌}
use edge_device_webrtc.Prelude.Lists.{is_empty}

module _ {ℓ} {A : Type ℓ} where
  -- `m[k] = a`.
  abbrev pub put_key : ℕ → A → List (ℕ × A) → List (ℕ × A)
  put_key k a [] = (k, a) ∷ []
  put_key k a ((l, b) ∷ m) =
      let later = put_key k a m in
      if ltb k l then (k, a) ∷ (l, b) ∷ m else (if k == l then (k, a) ∷ m else (l, b) ∷ later)

  -- `m.erase(k)`.
  abbrev pub erase_key : ℕ → List (ℕ × A) → List (ℕ × A)
  erase_key k [] = []
  erase_key k ((l, b) ∷ m) = let later = erase_key k m in if k == l then later else (l, b) ∷ later

  -- `m.find(k)`.
  abbrev pub find_key : ℕ → List (ℕ × A) → Option A
  find_key k [] = none
  find_key k ((l, b) ∷ m) = let later = find_key k m in if k == l then some b else later

  pub find_key-put_key :
      (k l : ℕ) (a : A) (m : List (ℕ × A))
      → find_key k (put_key l a m) ≡ (if k == l then some a else find_key k m)
  find_key-put_key k l a [] = refl
  find_key-put_key k l a ((j, b) ∷ m) = ground (arith, find_key-put_key k l a m)

  pub find_key-erase_key :
      (k l : ℕ) (m : List (ℕ × A))
      → find_key k (erase_key l m) ≡ (if k == l then none else find_key k m)
  find_key-erase_key k l [] = ground arith
  find_key-erase_key k l ((j, b) ∷ m) = ground (arith, find_key-erase_key k l m)

  pub put_key-nonempty : (k : ℕ) (a : A) (m : List (ℕ × A)) → is_empty (put_key k a m) ≡ false
  put_key-nonempty k a [] = refl
  put_key-nonempty k a ((l, b) ∷ m) = ground arith

  -- An entry that is found after a write is the written one, or was there before.
  pub put_key-cases :
      (k l : ℕ) (a c : A) (m : List (ℕ × A))
      → find_key k (put_key l a m) ≡ some c
      → ((k ≡ l) × (c ≡ a)) ⊎ ((k ≢ l) × (find_key k m ≡ some c))
  put_key-cases k l a c m h =
      let e : (if k == l then some a else find_key k m) ≡ some c =
        sym (find_key-put_key k l a m) ∙ h in
      elim (Bool-cases (k == l)) [
        | inl same ↦ let found : some a ≡ some c = ground arith in inl ((==_iff k l).0 same, cc)
        | inr other ↦ let apart : k ≢ l = λ s. ground arith in inr (apart, ground arith)
      ]

  -- An entry that is found after another is erased was there before.
  pub erase_key-kept :
      (k l : ℕ) (c : A) (m : List (ℕ × A))
      → find_key k (erase_key l m) ≡ some c
      → find_key k m ≡ some c
  erase_key-kept k l c m h =
      let e = find_key-erase_key k l m in
      elim (Bool-cases (k == l)) [ inl same ↦ absurd (ground arith) | inr other ↦ ground arith ]
