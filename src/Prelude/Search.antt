-- ===== src/Prelude/Search.antt =====
-- Where a byte stands in a text.
use Prim.Native.Nat.{ℕ}
use mathlib.Core.Path.{◌≡◌, refl, ap, ◌∙◌}
use mathlib.Core.Bool.{false}
use mathlib.Core.List.{[], ◌∷◌, ◌++◌}
use mathlib.Core.Option.{none, some}
use native.Mathlib.Omega.{arith}
use edge_device_webrtc.Prelude.Tests.{◌==◌}
use edge_device_webrtc.Prelude.Lists.{All, length}
use edge_device_webrtc.Prelude.Bytes.{Text, find, starts_with}

abbrev pub Lacks : ℕ → Text → Type 0
Lacks c = All (λ x. (x == c) ≡ false)

pub Lacks-append : (c : ℕ) (xs ys : Text) → Lacks c xs → Lacks c ys → Lacks c (xs ++ ys)
Lacks-append c [] ys h k = k
Lacks-append c (x ∷ xs) ys h k = (h.0, Lacks-append c xs ys h.1 k)

pub find_char :
    (c : ℕ) (xs ys : Text) → Lacks c xs → find (c ∷ []) (xs ++ c ∷ ys) ≡ some (length xs)
unfolding find starts_with
find_char c [] ys h = ground arith
find_char c (x ∷ xs) ys h = ground (arith, find_char c xs ys h.1, h.0)

pub find_char_at :
    (c : ℕ) (xs ys : Text) (k : ℕ)
    → Lacks c xs
    → length xs ≡ k
    → find (c ∷ []) (xs ++ c ∷ ys) ≡ some k
find_char_at c xs ys k h e = find_char c xs ys h ∙ ap some e

pub find_char_none : (c : ℕ) (xs : Text) → Lacks c xs → find (c ∷ []) xs ≡ none
unfolding find starts_with
find_char_none c [] h = refl
find_char_none c (x ∷ xs) h = ground (arith, find_char_none c xs h.1, h.0)
