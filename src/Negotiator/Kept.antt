-- ===== src/Negotiator/Kept.antt =====
-- Which entries the negotiators of src/modules/track-negotiators leave in a description, and with
-- which feedback.
use mathlib.Core.Option
use mathlib.Core.Path.{subst}
use edge_device_webrtc.Negotiator.Match.{match_loop, without_feedback}
use edge_device_webrtc.Prelude.{
  ◌&&◌, not, Text, refl, Bool-cases, inr, ap, sym, inl, arith, true, Option-cases, [], ◌∙◌, ◌||◌,
  none, ◌==◌, if◌then◌else◌, codes, ◌≡◌, ◌∷◌, some, false, Option, List, Bool, ℕ,
}
use edge_device_webrtc.Negotiator.Media.{MediaLaws, RtpMap, MediaOps, drop_feedback, unless_apt}

-- `pt` is among the payload types.
abbrev pub among : ℕ → List ℕ → Bool
among q [] = false
among q (pt ∷ pts) = q == pt || among q pts

abbrev pub distinct : List ℕ → Bool
distinct [] = true
distinct (p ∷ ps) = not (among p ps) && distinct ps

-- An entry without the feedback that the device does not support.
abbrev pub stripped : RtpMap → RtpMap
stripped r = drop_feedback (codes "ccm fir") (
    drop_feedback (codes "transport-cc")
      (drop_feedback (codes "goog-remb") (drop_feedback (codes "nack") r)))

-- What becomes of an entry that is visited: it stays without this feedback, or is removed.
abbrev pub settled : (RtpMap → Bool) → Option RtpMap → Option RtpMap
settled test none = none
settled test (some r) = if test r then some (stripped r) else none

-- An entry that is not for the retransmission of another.
abbrev pub NoApt : Option RtpMap → Type 0
NoApt o = (p : ℕ) → unless_apt p o ≡ o

eqb→eq : (a b : ℕ) → (a == b) ≡ true → a ≡ b
eqb→eq a b h = ground arith

eq→eqb : (a b : ℕ) → a ≡ b → (a == b) ≡ true
eq→eqb a b h = ground arith

distinct_head : (p : ℕ) (ps : List ℕ) → distinct (p ∷ ps) ≡ true → among p ps ≡ false
distinct_head p ps d = ground arith

distinct_tail : (p : ℕ) (ps : List ℕ) → distinct (p ∷ ps) ≡ true → distinct ps ≡ true
distinct_tail p ps d = ground arith

kept_line :
    (gone : Bool) (r s : RtpMap)
    → (if gone then none else some r) ≡ some r
    → (if gone then none else some s) ≡ some s
kept_line true r s h = absurd cc
kept_line false r s h = refl

unless_apt-drop :
    (p : ℕ) (name : Text) (r : RtpMap)
    → unless_apt p (some r) ≡ some r
    → unless_apt p (some (drop_feedback name r)) ≡ some (drop_feedback name r)
unless_apt-drop p name r h = kept_line _ r (drop_feedback name r) h

NoApt-stripped : (r : RtpMap) → NoApt (some r) → NoApt (some (stripped r))
NoApt-stripped r h p = unless_apt-drop p (codes "ccm fir") _ (
    unless_apt-drop p (codes "transport-cc") _
      (unless_apt-drop p (codes "goog-remb") _ (unless_apt-drop p (codes "nack") r (h p))))

if_true : {A : Type 0} → (b : Bool) (x y : A) → b ≡ true → (if b then x else y) ≡ x
if_true true x y h = refl
if_true false x y h = absurd cc

if_false : {A : Type 0} → (b : Bool) (x y : A) → b ≡ false → (if b then x else y) ≡ y
if_false false x y h = refl
if_false true x y h = absurd cc

module _ {M : Type 0} (ops : MediaOps M) (laws : MediaLaws ops) where
  other_feedback :
      (pt q : ℕ) (name : Text) (m : M)
      → (q == pt) ≡ false
      → ops.rtp_map (ops.remove_feedback pt name m) q ≡ ops.rtp_map m q
  other_feedback pt q name m h = rw h at (laws.feedback pt q name m)

  other_kept :
      (pt q : ℕ) (m : M)
      → (q == pt) ≡ false
      → ops.rtp_map (without_feedback ops pt m) q ≡ ops.rtp_map m q
  unfolding without_feedback
  other_kept pt q m h =
      other_feedback pt q (codes "ccm fir") _ h
      ∙ other_feedback pt q (codes "transport-cc") _ h
      ∙ other_feedback pt q (codes "goog-remb") _ h
      ∙ other_feedback pt q (codes "nack") m h

  own_feedback :
      (pt : ℕ) (name : Text) (m : M) (r : RtpMap)
      → ops.rtp_map m pt ≡ some r
      → ops.rtp_map (ops.remove_feedback pt name m) pt ≡ some (drop_feedback name r)
  own_feedback pt name m r h =
      rw (eq→eqb pt pt refl) at (laws.feedback pt pt name m)
      ∙ ap (Option.map (drop_feedback name)) h

  own_stripped :
      (pt : ℕ) (m : M) (r : RtpMap)
      → ops.rtp_map m pt ≡ some r
      → ops.rtp_map (without_feedback ops pt m) pt ≡ some (stripped r)
  unfolding without_feedback
  own_stripped pt m r h = own_feedback pt (codes "ccm fir") _ _ (
      own_feedback pt (codes "transport-cc") _ _
        (own_feedback pt (codes "goog-remb") _ _ (own_feedback pt (codes "nack") m r h)))

  -- The rest of the loop, at a payload type that is not the first one.
  unvisited :
      (q pt : ℕ) (pts : List ℕ) (test : RtpMap → Bool) (o x : Option RtpMap)
      → (q == pt) ≡ false
      → x ≡ (if among q pts then settled test o else o)
      → x ≡ (if among q (pt ∷ pts) then settled test o else o)
  unvisited q pt pts test o x other h = rw other h

  -- At the first one, after which it is not visited again.
  visited :
      (q pt : ℕ) (pts : List ℕ) (test : RtpMap → Bool) (o o' x : Option RtpMap)
      → q ≡ pt
      → distinct (pt ∷ pts) ≡ true
      → o' ≡ settled test o
      → x ≡ (if among q pts then settled test o' else o')
      → x ≡ (if among q (pt ∷ pts) then settled test o else o)
  visited q pt pts test o o' x same d e h =
      let later : among q pts ≡ false = ap (λ n. among n pts) same ∙ distinct_head pt pts d in
      rw (eq→eqb q pt same) (rw later at h ∙ e)

  settled_at :
      (test : RtpMap → Bool) (pts : List ℕ) (rtp : Option ℕ) (m : M) (q : ℕ) (o : Option RtpMap)
      → distinct pts ≡ true
      → ops.rtp_map m q ≡ o
      → NoApt o
      → ops.rtp_map (match_loop ops test pts rtp m).0 q
        ≡ (if among q pts then settled test o else o)
  unfolding match_loop
  settled_at test [] rtp m q o d here free = here
  settled_at test (pt ∷ pts) rtp m q o d here free = elim (Option-cases (ops.rtp_map m pt)) [
    | inl absent ↦
        rw (absent, match_loop)
          (elim (Bool-cases (q == pt)) [
            | inr other ↦
                unvisited q pt pts test o _ other
                  (settled_at test pts rtp m q o (distinct_tail pt pts d) here free)
            | inl same ↦
                let gone : o ≡ none = sym here ∙ ap (ops.rtp_map m) (eqb→eq q pt same) ∙ absent in
                visited q pt pts test o o _ (eqb→eq q pt same) d
                  (gone ∙ sym (ap (settled test) gone))
                  (settled_at test pts rtp m q o (distinct_tail pt pts d) here free)
          ])
    | inr (r, present) ↦ elim (Bool-cases (test r)) [
      | inl good ↦
          rw (present, good, match_loop)
            (let n = without_feedback ops pt m in
              elim (Bool-cases (q == pt)) [
                | inr other ↦ unvisited q pt pts test o _ other (
                    settled_at test pts (some r.payload_type) n q o (distinct_tail pt pts d)
                      (other_kept pt q m other ∙ here) free)
                | inl same ↦
                    let q≡pt = eqb→eq q pt same in
                    let is_r : o ≡ some r = sym here ∙ ap (ops.rtp_map m) q≡pt ∙ present in
                    let free_r : NoApt (some r) = subst NoApt is_r free in
                    visited q pt pts test o (some (stripped r)) _ q≡pt d
                      (sym
                        (ap (settled test) is_r ∙ if_true (test r) (some (stripped r)) none good))
                      (settled_at test pts (some r.payload_type) n q (some (stripped r))
                        (distinct_tail pt pts d)
                        (ap (ops.rtp_map n) q≡pt ∙ own_stripped pt m r present)
                        (NoApt-stripped r free_r))
              ])
      | inr bad ↦
          rw (present, bad, match_loop)
            (let n = ops.remove_rtp_map pt m in
              elim (Bool-cases (q == pt)) [
                | inr other ↦ unvisited q pt pts test o _ other (
                    settled_at test pts rtp n q o (distinct_tail pt pts d)
                      (laws.others pt q m other ∙ ap (unless_apt pt) here ∙ free pt) free)
                | inl same ↦
                    let q≡pt = eqb→eq q pt same in
                    let is_r : o ≡ some r = sym here ∙ ap (ops.rtp_map m) q≡pt ∙ present in
                    visited q pt pts test o none _ q≡pt d
                      (sym
                        (ap (settled test) is_r ∙ if_false (test r) (some (stripped r)) none bad))
                      (settled_at test pts rtp n q none (distinct_tail pt pts d)
                        (ap (ops.rtp_map n) q≡pt ∙ laws.removed pt m) (λ p. refl))
              ])
    ]
  ]

  -- Where the payload types are distinct, the loop of the opus, pcmu and vp8 negotiators keeps of the
  -- entries that it visits just those that pass the test, without the feedback lines that name
  -- "nack", "goog-remb", "transport-cc" or "ccm fir" and otherwise unchanged, and leaves entries
  -- that it does not visit as they are. This is so for every entry but those for the
  -- retransmission of another payload type, which can go with that one.
  pub match_loop-settled :
      (test : RtpMap → Bool) (pts : List ℕ) (rtp : Option ℕ) (m : M) (q : ℕ)
      → distinct pts ≡ true
      → NoApt (ops.rtp_map m q)
      → ops.rtp_map (match_loop ops test pts rtp m).0 q
        ≡ (if among q pts then settled test (ops.rtp_map m q) else ops.rtp_map m q)
  match_loop-settled test pts rtp m q d free =
      settled_at test pts rtp m q (ops.rtp_map m q) d refl free
