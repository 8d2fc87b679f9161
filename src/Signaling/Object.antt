-- ===== src/Signaling/Object.antt =====
-- Signaling objects in src/library/signaling-stream/signaling_stream.cpp: what is done with a read
-- object, and the objects that the device sends. The JSON library is an argument.
use edge_device_webrtc.Prelude.{
  refl, ◌≡◌, ℕ, false, not, ◌||◌, Option, none, some, List, [], ◌∷◌, ◌++◌, map, Text, codes, ltb,
  ◌==◌, if◌then◌else◌,
}
use edge_device_webrtc.Json.{JsonOps}
use edge_device_webrtc.Signaling.State.{
  Stream, ErrorCode, TurnServer, ObjectType, object_code, webrtc_offer, webrtc_answer, webrtc_ice,
  turn_request, turn_response, ec_ok, ec_eof, ec_failed, handle_offer_answer, handle_ice,
}
use edge_device_webrtc.Signaling.Stream.{
  called, cleanup, close_stream, read_obj_length, send_signalling_object,
}

-- The end of a handler: it returns, or an exception leaves it and so the event loop.
pub data Outcome {ℓ} (A : Type ℓ) : Type ℓ where
  done : A → Outcome A
  thrown : Outcome A

infixl 5 ◌>>=◌
abbrev pub ◌>>=◌ {ℓ κ} : {A : Type ℓ} {B : Type κ} → Outcome A → (A → Outcome B) → Outcome B
done a >>= f = f a
thrown >>= f = thrown

-- A sequence that returns: its first part returns, and the rest does on that.
pub >>=-eq-done {ℓ κ} :
    {A : Type ℓ} {B : Type κ} (m : Outcome A) (f : A → Outcome B) {b : B}
    → (m >>= f) ≡ done b
    → (a : A) × (m ≡ done a) × (f a ≡ done b)
>>=-eq-done (done a) f h = (a, refl, h)
>>=-eq-done thrown f h = cc

abbrev pub or_throw {ℓ} : {A : Type ℓ} → Option A → Outcome A
or_throw none = thrown
or_throw (some a) = done a

module _ {J : Type 0} (json : JsonOps J) where
  open json use {parse, dump, field, get_int, get_string, number, string, array, object}

  -- The message of `signalingSendOffer`, `signalingSendAnswer` and `signalingSendIce`.
  unfoldable pub signaling_message : ObjectType → Text → J → Text
  signaling_message type text metadata = dump (
      object (
        (codes "type", number (object_code type))
        ∷ (codes "data", string text)
        ∷ (codes "metadata", metadata)
        ∷ []))

  optional_field : Text → Text → List (Text × J)
  optional_field key [] = []
  optional_field key (c ∷ cs) = (key, string (c ∷ cs)) ∷ []

  old_server : TurnServer → List Text → List J
  old_server t [] = []
  old_server t (url ∷ urls) =
      object (
        (codes "hostname", string url)
        ∷ (codes "port", number 0)
        ∷ (codes "username", string t.username)
        ∷ (codes "password", string t.credential)
        ∷ [])
      ∷ []

  -- The deprecated field `servers` has an entry for each server with a URL.
  pub old_servers : List TurnServer → List J
  unfolding old_server
  old_servers [] = []
  old_servers (t ∷ ts) = old_server t t.urls ++ old_servers ts

  pub ice_server : TurnServer → J
  unfolding optional_field
  ice_server t = object (
      (codes "urls", array (map string t.urls))
      ∷ (optional_field (codes "username") t.username
          ++ optional_field (codes "credential") t.credential))

  unfoldable pub turn_servers_message : List TurnServer → Text
  unfolding old_servers ice_server
  turn_servers_message ts = dump (
      object (
        (codes "type", number (object_code turn_response))
        ∷ (codes "servers", array (old_servers ts))
        ∷ (codes "iceServers", array (map ice_server ts))
        ∷ []))

  unfoldable pub send_turn_servers : Stream J → Stream J
  send_turn_servers s = send_signalling_object (turn_servers_message s.turn_servers) s

  unfoldable pub give_offer_answer : J → Stream J → Outcome (Stream J)
  unfolding called
  give_offer_answer obj s = do
    offer ← or_throw (field obj (codes "data"))
    text ← or_throw (get_string offer)
    metadata ← or_throw (field obj (codes "metadata"))
    done (called (handle_offer_answer text metadata) s)

  unfoldable pub give_ice : J → Stream J → Outcome (Stream J)
  unfolding called
  give_ice obj s = do
    ice ← or_throw (field obj (codes "data"))
    text ← or_throw (get_string ice)
    done (called (handle_ice text) s)

  -- The `try` block behind the parse, for an object of type `type`.
  unfoldable pub handle_object : ℕ → J → Stream J → Outcome (Stream J)
  unfolding give_offer_answer give_ice send_turn_servers
  handle_object type obj s =
      if type == object_code webrtc_offer || type == object_code webrtc_answer
      then give_offer_answer obj s
      else (if type == object_code webrtc_ice
          then give_ice obj s
          else (if type == object_code turn_request then done (send_turn_servers s) else done s))

  unfoldable pub handle_parsed : J → Stream J → Outcome (Stream J)
  handle_parsed obj s = do
    tag ← or_throw (field obj (codes "type"))
    type ← or_throw (get_int tag)
    handle_object type obj s

  -- `free(objectBuffer_); objectBuffer_ = NULL; return readObjLength();`
  unfoldable pub next_object : Stream J → Stream J
  unfolding read_obj_length
  next_object s = read_obj_length (record s { object_buffer = none })

  -- Only `parse_error` is caught.
  unfoldable pub handle_parse_result : Option J → Stream J → Outcome (Stream J)
  handle_parse_result none s = done (next_object s)
  handle_parse_result (some obj) s = handle_parsed obj s >>= λ t. done (next_object t)

  -- `bytes` is the buffer, which the read has filled.
  unfoldable pub handle_read_object : Text → Stream J → Outcome (Stream J)
  unfolding handle_parse_result read_obj_length
  handle_read_object bytes s =
      if ltb s.read_len s.object_length || not s.webrtc_connection
      then done (read_obj_length s)
      else handle_parse_result (parse bytes) s

  -- The callback of `hasReadObject`.
  unfoldable pub has_read_object : ErrorCode → Text → Stream J → Outcome (Stream J)
  unfolding handle_read_object close_stream cleanup
  has_read_object ec_eof bytes s = done (close_stream (record s { reading = false }))
  has_read_object ec_failed bytes s = done (cleanup (record s { reading = false }))
  has_read_object ec_ok bytes s = handle_read_object bytes (record s { reading = false })
