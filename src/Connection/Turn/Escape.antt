-- ===== src/Connection/Turn/Escape.antt =====
-- The URLs that src/library/webrtc-connection/webrtc_util.hpp builds for TURN servers.
use edge_device_webrtc.Signaling.State.{TurnServer}
use edge_device_webrtc.Prelude.{
  starts_with, false, is_empty, append_assoc, ap, sym, ◌∙◌, drop_past, take-length-append, ==_iff,
  find_char, Lacks-append, zero, find_char_none, refl, append-nil, inr, arith, [], ◌++◌, some, inl,
  codes, ◌≡◌, ◌==◌, ◌<◌, length, if◌then◌else◌, Bool-cases, ◌∷◌, ℕ, suc, Lacks, Text,
}
use edge_device_webrtc.Connection.Turn.{strip_scheme, protocol, user_info, server_url, escape_loop}

-- Every colon is replaced, and everything else stays.
abbrev pub escape_colons : Text → Text
escape_colons [] = []
escape_colons (c ∷ cs) =
    let rest = escape_colons cs in if c == b':' then codes "%3A" ++ rest else c ∷ rest

escape_colons-Lacks : (u : Text) → Lacks b':' (escape_colons u)
escape_colons-Lacks [] = tt
escape_colons-Lacks (c ∷ cs) = elim (Bool-cases (c == b':')) [
  | inl colon ↦ rw colon (refl, (refl, (refl, escape_colons-Lacks cs)))
  | inr other ↦ rw other (other, escape_colons-Lacks cs)
]

escape_loop-plain :
    (fuel : ℕ) (done : Text) → Lacks b':' done → escape_loop (suc fuel) done ≡ some done
unfolding escape_loop
escape_loop-plain fuel done h = rw (find_char_none b':' done h, escape_loop) refl

escape_loop-colon :
    (fuel : ℕ) (done cs : Text)
    → Lacks b':' done
    → escape_loop (suc fuel) (done ++ b':' ∷ cs) ≡ escape_loop fuel (done ++ (codes "%3A" ++ cs))
unfolding escape_loop
escape_loop-colon fuel done cs h =
    rw
      (
        find_char b':' done cs h,
        escape_loop,
        take-length-append done (b':' ∷ cs),
        drop_past b':' done cs,
      )
      refl

escape_loop_from :
    (fuel : ℕ) (done rest : Text)
    → Lacks b':' done
    → length rest < fuel
    → escape_loop fuel (done ++ rest) ≡ some (done ++ escape_colons rest)
escape_loop_from zero done rest h l = absurd (omega arith)
escape_loop_from (suc fuel) done [] h l = rw (append-nil done) (escape_loop-plain fuel done h)
escape_loop_from (suc fuel) done (c ∷ cs) h l = elim (Bool-cases (c == b':')) [
  | inl colon ↦
      let next =
        escape_loop_from fuel (done ++ codes "%3A") cs
          (Lacks-append b':' done (codes "%3A") h (refl, (refl, (refl, tt)))) (omega arith) in
      rw ((==_iff c b':').0 colon) (
        escape_loop-colon fuel done cs h
        ∙ sym (ap (escape_loop fuel) (append_assoc done (codes "%3A") cs))
        ∙ next
        ∙ ap some (append_assoc done (codes "%3A") (escape_colons cs)))
  | inr other ↦
      let next =
        escape_loop_from (suc fuel) (done ++ c ∷ []) cs
          (Lacks-append b':' done (c ∷ []) h (other, tt)) (omega arith) in
      rw other (
        sym (ap (escape_loop (suc fuel)) (append_assoc done (c ∷ []) cs))
        ∙ next
        ∙ ap some (append_assoc done (c ∷ []) (escape_colons cs)))
]

-- A user name gets into the URL with every colon written as `%3A` and nothing else changed, so that
-- no colon is left in it; the loop that does this ends for every user name.
user_name_escaped :
    (u : Text)
    → (escape_loop (suc (length u)) u ≡ some (escape_colons u)) × Lacks b':' (escape_colons u)
user_name_escaped u =
    (escape_loop_from (suc (length u)) [] u tt (omega arith), escape_colons-Lacks u)

-- The host of a URL: what follows `turn:` or `stun:`, or else the whole URL.
pub data IsHost (h : Text) : Text → Type 0 where
  after_turn : IsHost h (codes "turn:" ++ h)
  after_stun : IsHost h (codes "stun:" ++ h)
  bare : starts_with (codes "turn:") h ≡ false → starts_with (codes "stun:") h ≡ false → IsHost h h

strip_scheme-IsHost : (h u : Text) → IsHost h u → strip_scheme u ≡ h
unfolding strip_scheme starts_with
strip_scheme-IsHost h _ after_turn = refl
strip_scheme-IsHost h _ after_stun = refl
strip_scheme-IsHost h _ (bare turn stun) = rw (turn, stun) refl

-- A server with a user name and a credential gets the URL `turn:name:credential@host`, where the
-- name has every colon written as `%3A` and nothing else changed, so that no colon is left in it,
-- the credential is as it was given, and the host is what follows `turn:` or `stun:` in the URL, or
-- the whole URL if it starts with neither. The loop that replaces the colons ends for every user
-- name.
pub server_url-escape_colons :
    (t : TurnServer) (u host : Text)
    → is_empty t.username ≡ false
    → is_empty t.credential ≡ false
    → IsHost host u
    → (server_url t u
        ≡ some (
            codes "turn:"
            ++ ((escape_colons t.username ++ (codes ":" ++ (t.credential ++ codes "@"))) ++ host)))
      × Lacks b':' (escape_colons t.username)
unfolding server_url user_info protocol
server_url-escape_colons t u host named secret is_host =
    let (escaped, plain) = user_name_escaped t.username in
    (rw (named, secret, escaped, strip_scheme-IsHost host u is_host) refl, plain)
