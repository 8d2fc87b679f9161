-- ===== src/Connection/Coap/Once.antt =====
-- How often the CoAP channel (webrtc_coap_channel.cpp) answers its requests.
use mathlib.Core.Option
use mathlib.Core.Path.{subst}
use edge_device_webrtc.Connection.Coap.Counts.{
  count_sent-append, count_sent, count, count_key, count-append, count_key-append, count_key-erase,
  count_key-found,
}
use edge_device_webrtc.Json.{JsonOps}
use edge_device_webrtc.Connection.Coap.{
  send_text, execute, create_request, coap_error, success_response, read_type, coap_response,
  respond, CoapRequest, drop_request, answer_request, accept, error_response, refused,
  handle_channel_closed, handle_coap_response, accepted, Created, CoapResponse, send_response,
  new_channel, handle_string_message, handle_created, CoapChannel,
}
use edge_device_webrtc.Prelude.{
  ◌⊎◌, true, some_injective, [], ◌∷◌, ◌++◌, false, refl, Bool-cases, ◌∙◌, none, inr, inl,
  Option-cases, sym, arith, ◌==◌, ltb, some, if◌then◌else◌, Bool, ◌≡◌, find_key, Text, ◌+◌, ℕ,
}

-- Every request up to now is pending, or one response to it was sent, or it was left without one,
-- and only one of these.
abbrev pub Once : CoapChannel → ℕ → Type 0
Once s k =
    count_key k s.pending + count_sent k s.calls + count k s.unanswered
    ≡ (if ltb k s.next_request then 1 else 0)

sent_or_dropped :
    (n : ℕ) (is_open failed : Bool) (s t u : CoapChannel)
    → Option.map
        (answer_request n failed)
        (if is_open then some (if failed then s else t) else none)
      ≡ some u
    → (drop_request n s ≡ u) ⊎ (answer_request n false t ≡ u)
unfolding answer_request
sent_or_dropped n false failed s t u h = absurd cc
sent_or_dropped n true true s t u h = inl (some_injective h)
sent_or_dropped n true false s t u h = inr (some_injective h)

module _ {J : Type 0} (json : JsonOps J) (fails : Text → Bool) where
  pub data Step (s : CoapChannel) : CoapChannel → Type 0 where
    message :
        (t : Text) (u : CoapChannel) → handle_string_message json fails t s ≡ some u → Step s u
    resolved :
        (k : ℕ) (r : CoapResponse) (u : CoapChannel)
        → handle_coap_response json fails k r s ≡ some u
        → Step s u
    closes : Step s (handle_channel_closed s)

  pub data Reach : CoapChannel → Type 0 where
    created : Reach new_channel
    next : {s u : CoapChannel} → Reach s → Step s u → Reach u

  send_error-Once :
      (j : J) (s u : CoapChannel) (k : ℕ)
      → send_response json fails none j s ≡ some u
      → Once s k
      → Once u k
  unfolding send_response
  send_error-Once j s u k e h =
      ground (arith, count_sent-append k s.calls (send_text none (json.dump j) ∷ []))

  accept-Once : (r : CoapRequest) (s : CoapChannel) (k : ℕ) → Once s k → Once (accept r s) k
  unfolding accept
  accept-Once r s k h = ground (
    arith,
    count_key-append k s.next_request r s.pending,
    count_sent-append k s.calls (execute s.next_request r ∷ []),
  )

  drop_request-Once :
      (n : ℕ) (r : CoapRequest) (s : CoapChannel) (k : ℕ)
      → find_key n s.pending ≡ some r
      → Once s k
      → Once (drop_request n s) k
  unfolding drop_request
  drop_request-Once n r s k e h = ground (
    arith,
    count_key-erase k n s.pending,
    count-append k n s.unanswered,
    count_key-found n r s.pending e,
  )

  -- A request is answered with what was sent, or left without an answer.
  answer_sent-Once :
      (n : ℕ) (r : CoapRequest) (text : Text) (s : CoapChannel) (k : ℕ)
      → find_key n s.pending ≡ some r
      → Once s k
      → Once
          (answer_request n false (record s { calls = s.calls ++ send_text (some n) text ∷ [] }))
          k
  unfolding answer_request
  answer_sent-Once n r text s k e h = ground (
    arith,
    count_key-erase k n s.pending,
    count_sent-append k s.calls (send_text (some n) text ∷ []),
    count_key-found n r s.pending e,
  )

  answered-Once :
      (n : ℕ) (r : CoapRequest) (j : J) (s u : CoapChannel) (k : ℕ)
      → find_key n s.pending ≡ some r
      → Option.map (answer_request n (fails (json.dump j))) (send_response json fails (some n) j s)
        ≡ some u
      → Once s k
      → Once u k
  unfolding send_response
  answered-Once n r j s u k known e h =
      let t : CoapChannel = record s { calls = s.calls ++ send_text (some n) (json.dump j) ∷ [] } in
      elim (sent_or_dropped n s.channel (fails (json.dump j)) s t u e) [
        | inl dropped ↦ subst (λ v. Once v k) dropped (drop_request-Once n r s k known h)
        | inr sent ↦ subst (λ v. Once v k) sent (answer_sent-Once n r (json.dump j) s k known h)
      ]

  handle_created-Once :
      (c : Created) (s u : CoapChannel) (k : ℕ)
      → handle_created json fails c s ≡ some u
      → Once s k
      → Once u k
  unfolding handle_created
  handle_created-Once (accepted r) s u k e h =
      let same : accept r s ≡ u = cc in rw (sym same) (accept-Once r s k h)
  handle_created-Once (refused id error) s u k e h =
      send_error-Once (error_response json id error) s u k e h

  handle_string_message-Once :
      (t : Text) (s u : CoapChannel) (k : ℕ)
      → handle_string_message json fails t s ≡ some u
      → Once s k
      → Once u k
  unfolding handle_string_message
  handle_string_message-Once t s u k e h = elim (Option-cases (read_type json fails t)) [
    | inl missing ↦
        let path : handle_string_message json fails t s ≡ some s =
          rw (missing, handle_string_message) refl in
        let same : some s ≡ some u = sym path ∙ e in let here : s ≡ u = cc in rw (sym here) h
    | inr ((n, j), found) ↦ elim (Bool-cases (n == 0)) [
      | inl zero_ ↦
          let path : handle_string_message json fails t s
              ≡ handle_created json fails (create_request json j) s =
            rw (found, handle_string_message, zero_) refl in
          handle_created-Once (create_request json j) s u k (sym path ∙ e) h
      | inr other ↦
          let path : handle_string_message json fails t s ≡ some s =
            rw (found, handle_string_message, other) refl in
          let same : some s ≡ some u = sym path ∙ e in let here : s ≡ u = cc in rw (sym here) h
    ]
  ]

  respond-Once :
      (n : ℕ) (r : CoapRequest) (answer : CoapResponse) (s u : CoapChannel) (k : ℕ)
      → find_key n s.pending ≡ some r
      → respond json fails n r answer s ≡ some u
      → Once s k
      → Once u k
  unfolding respond
  respond-Once n r coap_error s u k known e h =
      let same : drop_request n s ≡ u = cc in rw (sym same) (drop_request-Once n r s k known h)
  respond-Once n r (coap_response status format payload) s u k known e h =
      answered-Once n r (success_response json r.request_id status format payload) s u k known e h

  handle_coap_response-Once :
      (n : ℕ) (answer : CoapResponse) (s u : CoapChannel) (k : ℕ)
      → handle_coap_response json fails n answer s ≡ some u
      → Once s k
      → Once u k
  unfolding handle_coap_response
  handle_coap_response-Once n answer s u k e h = elim (Option-cases (find_key n s.pending)) [
    | inl missing ↦
        let path : handle_coap_response json fails n answer s ≡ some s =
          rw (missing, handle_coap_response) refl in
        let here : s ≡ u = cc in rw (sym here) h
    | inr (r, known) ↦
        let path : handle_coap_response json fails n answer s ≡ respond json fails n r answer s =
          rw (known, handle_coap_response) refl in
        respond-Once n r answer s u k known (sym path ∙ e) h
  ]

  Step-Once : {s u : CoapChannel} (k : ℕ) → Step s u → Once s k → Once u k
  unfolding handle_channel_closed
  Step-Once {s} k (message t u e) h = handle_string_message-Once t s u k e h
  Step-Once {s} k (resolved n answer u e) h = handle_coap_response-Once n answer s u k e h
  Step-Once {s} k closes h = h

  -- Whatever messages come, whenever the SDK resolves the requests that it was given, whenever the
  -- channel closes and whichever texts it fails to send: of each request made so far exactly one
  -- holds, that it is pending, that one response to it was sent on the channel, or that it was
  -- left without one; and to a request that was not made no response is sent.
  pub Reach-Once : {s : CoapChannel} (k : ℕ) → Reach s → Once s k
  Reach-Once k created = ground arith
  Reach-Once k (next reached step) = Step-Once k step (Reach-Once k reached)

-- A response that arrives after the channel is closed is sent through a pointer that is not set.
answer_after_close :
    {J : Type 0} (json : JsonOps J) (fails : Text → Bool) (n status format : ℕ) (payload : Text)
    (r : CoapRequest) (s : CoapChannel)
    → find_key n s.pending ≡ some r
    → handle_coap_response json fails n
        (coap_response status format payload)
        (handle_channel_closed s)
      ≡ none
unfolding handle_coap_response respond send_response handle_channel_closed
answer_after_close json fails n status format payload r s known =
    rw (known, handle_coap_response) refl
