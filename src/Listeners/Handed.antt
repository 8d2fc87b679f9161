-- ===== src/Listeners/Handed.antt =====
-- The order in which a listener hands streams or requests to its callback.
use mathlib.Core.Path.{subst}
use edge_device_webrtc.Prelude.{
  sym, append_assoc, ◌∙◌, refl, none, ◌∷◌, ap, some_injective, not, [], ◌&&◌, some, false, ◌≡◌,
  true, Option, ◌++◌, Bool, List, ℕ,
}
use edge_device_webrtc.Listeners.{
  run_end, new_item, set_callback, start_listener, run_first, run_call, Listener,
}

-- Callbacks are set, items and errors arrive while the SDK listens, and jobs run, in any order that
-- the event queue allows: `log` is the list of the items that arrived.
pub data Reach : List ℕ → Listener → Type 0 where
  starts : {s : Listener} → start_listener true ≡ some s → Reach [] s
  sets : {log : List ℕ} {s : Listener} (cb : ℕ) → Reach log s → Reach log (set_callback cb s)
  arrives :
      {log : List ℕ} {s : Listener} (item : ℕ)
      → Reach log s
      → s.listening ≡ true
      → Reach (log ++ item ∷ []) (new_item (some item) s)
  fails :
      {log : List ℕ} {s : Listener} → Reach log s → s.listening ≡ true → Reach log (new_item none s)
  runs : {log : List ℕ} {s t : Listener} → Reach log s → run_call s ≡ some t → Reach log t
  ends :
      {log : List ℕ} {s : Listener}
      → Reach log s
      → s.posted ≡ []
      → s.ended ≡ true
      → Reach log (run_end s)

abbrev pub items : {A : Type 0} → List (A × ℕ) → List ℕ
items [] = []
items ((a, i) ∷ rest) = i ∷ items rest

items-append : {A : Type 0} (xs ys : List (A × ℕ)) → items (xs ++ ys) ≡ items xs ++ items ys
items-append [] ys = refl
items-append ((a, i) ∷ xs) ys = ap (◌∷◌ i) (items-append xs ys)

record Inv (log : List ℕ) (s : Listener) : Type 0 where
  in_order : items s.handed ++ items s.posted ≡ log
  keeps_self : s.listening ≡ true → (s.me ≡ true) × (s.ended ≡ false)

run_call-in_order :
    (posted : List (Option ℕ × ℕ)) (log : List ℕ) (s t : Listener)
    → Inv log s
    → s.posted ≡ posted
    → run_first posted s ≡ some t
    → Inv log t
unfolding run_first
run_call-in_order [] log s t h e r = subst (Inv log) (some_injective r) h
run_call-in_order ((none, i) ∷ rest) log s t h e r = absurd cc
run_call-in_order ((some cb, i) ∷ rest) log s t h e r = subst (Inv log) (some_injective r) (record {
  in_order =
      ap (λ xs. xs ++ items rest) (items-append s.handed ((cb, i) ∷ []))
      ∙ append_assoc (items s.handed) (i ∷ []) (items rest)
      ∙ sym (ap (λ p. items s.handed ++ items p) e)
      ∙ h.in_order;
  keeps_self = h.keeps_self;
})

Reach-Inv : (log : List ℕ) (s : Listener) → Reach log s → Inv log s
unfolding run_call start_listener set_callback new_item run_end
Reach-Inv _ s (starts e) =
    subst (Inv []) (some_injective e) (record { in_order = refl; keeps_self = λ l. (refl, refl) })
Reach-Inv log _ (sets {s = s} cb r) =
    let h = Reach-Inv log s r in record { in_order = h.in_order; keeps_self = h.keeps_self }
Reach-Inv _ _ (arrives {log} {s} item r l) =
    let h = Reach-Inv log s r in
    record {
      in_order =
          ap (λ xs. items s.handed ++ xs) (items-append s.posted ((s.callback, item) ∷ []))
          ∙ sym (append_assoc (items s.handed) (items s.posted) (item ∷ []))
          ∙ ap (λ xs. xs ++ item ∷ []) h.in_order;
      keeps_self = λ e. h.keeps_self l;
    }
Reach-Inv log _ (fails {s = s} r l) =
    let h = Reach-Inv log s r in record { in_order = h.in_order; keeps_self = λ e. absurd cc }
Reach-Inv log t (runs {s = s} r e) = run_call-in_order s.posted log s t (Reach-Inv log s r) refl e
Reach-Inv log _ (ends {s = s} r e d) =
    let h = Reach-Inv log s r in
    record {
      in_order = h.in_order;
      keeps_self = λ l. absurd (let bad : true ≡ false = sym d ∙ (h.keeps_self l).1 in cc);
    }

alive : (l m : Bool) → (l ≡ true → m ≡ true) → (l && not m) ≡ false
alive true m h = ap not (h refl)
alive false m h = refl

-- The streams or requests that have arrived are handed to the callback in their order, each once,
-- but for those whose job still waits on the event queue; and while the SDK listens, the listener
-- keeps itself alive.
pub Reach-handed :
    (log : List ℕ) (s : Listener)
    → Reach log s
    → (items s.handed ++ items s.posted ≡ log) × ((s.listening && not s.me) ≡ false)
Reach-handed log s r =
    let h = Reach-Inv log s r in (h.in_order, alive s.listening s.me (λ l. (h.keeps_self l).0))
