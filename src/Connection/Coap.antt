-- ===== src/Connection/Coap.antt =====
-- `WebrtcCoapChannel` and `VirtualCoapRequest` of
-- src/library/webrtc-connection/webrtc_coap_channel.cpp.
pub mod Names
pub mod Once
mod Counts
mod Tests
use edge_device_webrtc.Json.{JsonOps}
use edge_device_webrtc.Prelude.{
  ◌^◌, ◌+◌, map, ◌∷◌, ◌==◌, ◌++◌, ◌%◌, text_eq, erase_key, [], ◌>>=◌, true, some, none,
  if◌then◌else◌, find_key, false, codes, Text, ℕ, Bool, List, Option,
}
use mathlib.Core.Option

pub data CoapMethod : Type 0 where
  get_method post_method put_method delete_method : CoapMethod

-- A request as it is handed to the SDK. The content type is not set where the member of the object
-- is read without a value.
pub record CoapRequest : Type 0 where
  pub request_id : Text
  pub method : CoapMethod
  pub path : Text
  pub payload : Text
  pub content_type : Option ℕ

-- A text that is sent comes with the number of the request that it is the response to; an error that
-- refuses a message is for no request.
pub data CoapCall : Type 0 where
  execute : ℕ → CoapRequest → CoapCall
  send_text : Option ℕ → Text → CoapCall

-- `channel` is whether `channel_` is set. A request is known by its number until its future
-- resolves; `unanswered` are the numbers of those for which nothing was sent then, and
-- `next_request` is the number of requests.
pub record CoapChannel : Type 0 where
  pub channel : Bool
  pub pending : List (ℕ × CoapRequest)
  pub next_request : ℕ
  pub unanswered : List ℕ
  pub calls : List CoapCall

abbrev pub new_channel : CoapChannel
new_channel = record { channel = true; pending = []; next_request = 0; unanswered = []; calls = [] }

unfoldable pub parse_method : Text → Option CoapMethod
parse_method t =
    if text_eq t (codes "GET")
    then some get_method
    else (if text_eq t (codes "POST")
        then some post_method
        else (if text_eq t (codes "PUT")
            then some put_method
            else (if text_eq t (codes "DELETE") then some delete_method else none)))

-- What `createRequest` makes of a message: a request, or its ID and an error, as far as they are
-- known.
pub data Created : Type 0 where
  accepted : CoapRequest → Created
  refused : Text → Text → Created

-- What the SDK answers: an error, or a status, a content format and a payload.
pub data CoapResponse : Type 0 where
  coap_error : CoapResponse
  coap_response : ℕ → ℕ → Text → CoapResponse

module _ {J : Type 0} (json : JsonOps J) where
  -- `request[key].get<std::string>()`, and the object after it.
  unfoldable pub take_string : Text → J → Option (Text × J)
  take_string k j = do (value, after) ← json.entry k j; t ← json.get_string value; some (t, after)

  unfoldable pub take_payload : J → Option (Text × J)
  take_payload j = do
    (value, after) ← json.entry (codes "payload") j
    (data_, rest) ← json.entry (codes "data") value
    bytes ← json.get_bytes data_
    some (bytes, after)

  unfoldable pub take_content_type : J → Option ℕ
  take_content_type j = do
    (value, after) ← json.entry (codes "contentType") j
    n ← json.get_int value
    some (n % 2 ^ 16)

  -- The payload and the content type; an exception leaves what is read until then.
  unfoldable pub parse_payload : J → Text × Option ℕ
  unfolding take_payload take_content_type
  parse_payload j = elim (take_payload j) [
    | none ↦ ([], none)
    | some (payload, after) ↦ (payload, take_content_type after)
  ]

  unfoldable pub create_with_path : Text → CoapMethod → J → Created
  unfolding take_string parse_payload
  create_with_path id method j = elim (take_string (codes "path") j) [
    | none ↦ refused id []
    | some (path, after) ↦
        let (payload, content_type) = parse_payload after in
        accepted (record {
          request_id = id;
          method = method;
          path = path;
          payload = payload;
          content_type = content_type;
        })
  ]

  unfoldable pub create_with_id : Text → J → Created
  unfolding take_string parse_method create_with_path
  create_with_id id j = elim (take_string (codes "method") j) [
    | none ↦ refused id []
    | some (name, after) ↦ elim (parse_method name) [
      | none ↦ refused id (codes "Invalid method")
      | some method ↦ create_with_path id method after
    ]
  ]

  unfoldable pub create_request : J → Created
  unfolding take_string create_with_id
  create_request j = elim (take_string (codes "requestId") j) [
    | none ↦ refused [] []
    | some (id, after) ↦ create_with_id id after
  ]

  unfoldable pub error_response : Text → Text → J
  error_response id error = json.object (
      (codes "type", json.number 1)
      ∷ (codes "requestId", json.string id)
      ∷ (codes "error", json.string error)
      ∷ [])

  unfoldable pub success_response : Text → ℕ → ℕ → Text → J
  success_response id status format payload = json.object (
      (codes "type", json.number 1)
      ∷ (codes "requestId", json.string id)
      ∷ (codes "statusCode", json.number status)
      ∷ (codes "contentType", json.number format)
      ∷ (codes "payload", json.array (map json.number payload))
      ∷ [])

-- A request that is executed, and the end of one without and with an answer.
unfoldable pub accept : CoapRequest → CoapChannel → CoapChannel
accept r s = record s {
  pending = s.pending ++ (s.next_request, r) ∷ [];
  next_request = s.next_request + 1;
  calls = s.calls ++ execute s.next_request r ∷ [];
}

unfoldable pub drop_request : ℕ → CoapChannel → CoapChannel
drop_request k s = record s { pending = erase_key k s.pending; unanswered = s.unanswered ++ k ∷ [] }

-- `failed` is whether the response could not be sent.
unfoldable pub answer_request : ℕ → Bool → CoapChannel → CoapChannel
unfolding drop_request
answer_request k true s = drop_request k s
answer_request k false s = record s { pending = erase_key k s.pending }

module _ {J : Type 0} (json : JsonOps J) (fails : Text → Bool) where
  -- `none` is the call through a `channel_` that is not set; what `send` throws is caught.
  unfoldable pub send_response : Option ℕ → J → CoapChannel → Option CoapChannel
  send_response k j s =
      if s.channel
      then some (
          if fails (json.dump j)
          then s
          else record s { calls = s.calls ++ send_text k (json.dump j) ∷ [] })
      else none

  unfoldable pub handle_created : Created → CoapChannel → Option CoapChannel
  unfolding accept send_response error_response
  handle_created (accepted r) s = some (accept r s)
  handle_created (refused id error) s = send_response none (error_response json id error) s

  -- `message["type"]` of a text, and the object after it.
  unfoldable pub read_type : Text → Option (ℕ × J)
  read_type t = do
    j ← json.parse t
    (value, after) ← json.entry (codes "type") j
    n ← json.get_int value
    some (n, after)

  -- Type 0 is `COAP_REQUEST`.
  unfoldable pub handle_string_message : Text → CoapChannel → Option CoapChannel
  unfolding read_type create_request handle_created
  handle_string_message t s = elim (read_type t) [
    | none ↦ some s
    | some (n, j) ↦ if n == 0 then handle_created (create_request json j) s else some s
  ]

  -- What `handleCoapResponse` does for a request that is pending: an error is not answered.
  unfoldable pub respond : ℕ → CoapRequest → CoapResponse → CoapChannel → Option CoapChannel
  unfolding send_response success_response drop_request answer_request
  respond k r coap_error s = some (drop_request k s)
  respond k r (coap_response status format payload) s =
      let j = success_response json r.request_id status format payload in
      Option.map (answer_request k (fails (json.dump j))) (send_response (some k) j s)

  -- The future of request `k` resolves; that happens once, so that it is then pending.
  unfoldable pub handle_coap_response : ℕ → CoapResponse → CoapChannel → Option CoapChannel
  unfolding respond
  handle_coap_response k response s = elim (find_key k s.pending) [
    | none ↦ some s
    | some r ↦ respond k r response s
  ]

unfoldable pub handle_channel_closed : CoapChannel → CoapChannel
handle_channel_closed s = record s { channel = false }
