-- ===== src/Signaling/Manager.antt =====
-- The signaling streams of a device: src/library/signaling-stream/signaling_stream_manager.cpp.
pub mod Granted
mod Tests
use edge_device_webrtc.Prelude.{
  ◌∷◌, ◌++◌, some, false, codes, [], none, if◌then◌else◌, Text, Option, Bool, List, ℕ,
}
use edge_device_webrtc.Json.{JsonOps}
use edge_device_webrtc.Listeners.{refusal, request_free, response, RequestCall}

-- The calls on a new stream, which is given with its connection.
pub data ManagerCall : Type 0 where
  stream_free : ℕ → ManagerCall
  stream_create : ℕ → ℕ → ManagerCall
  stream_start : ℕ → ManagerCall

-- `access` is the callback, once it is set; `streams` are weak references.
pub record Manager : Type 0 where
  pub access : Option (ℕ → Text → Bool)
  pub streams : List ℕ
  pub calls : List ManagerCall

abbrev pub new_manager : Manager
new_manager = record { access = none; streams = []; calls = [] }

unfoldable pub set_access : (ℕ → Text → Bool) → Manager → Manager
set_access cb s = record s { access = some cb }

-- `accessCb_ && accessCb_(ref, action)`
abbrev pub has_access : Option (ℕ → Text → Bool) → ℕ → Text → Bool
has_access none ref action = false
has_access (some cb) ref action = cb ref action

-- The callback for a new stream, which the object `k` is made for.
unfoldable pub new_stream : ℕ → ℕ → Manager → Manager
new_stream k ref s =
    if has_access s.access ref (codes "Webrtc:Signaling")
    then record s {
      streams = s.streams ++ k ∷ [];
      calls = s.calls ++ stream_create k ref ∷ stream_start k ∷ [];
    }
    else record s { calls = s.calls ++ stream_free k ∷ [] }

-- The callback for a CoAP request; `port` is that of the stream listener.
unfoldable pub handle_info : {J : Type 0} → JsonOps J → ℕ → ℕ → Manager → List RequestCall
handle_info json port ref s =
    if has_access s.access ref (codes "Webrtc:GetInfo")
    then response 205
        (json.dump (json.object ((codes "SignalingStreamPort", json.number port) ∷ [])))
      ∷ request_free
      ∷ []
    else refusal 401 ∷ request_free ∷ []

-- `lock`, `isConnection` and `createTracks` of the objects that are alive.
pub record Objects (E T : Type 0) : Type 0 where
  pub lock : ℕ → Option E
  pub is_connection : ℕ → E → Bool
  pub create_tracks : List T → E → Bool

module _ {E T : Type 0} (objects : Objects E T) where
  -- The loop of `connectionAddMediaTracks`.
  unfoldable pub add_to_first : ℕ → List T → List ℕ → Bool
  add_to_first ref tracks [] = false
  add_to_first ref tracks (k ∷ ks) =
      let rest = add_to_first ref tracks ks in
      elim (objects.lock k) [
        | none ↦ rest
        | some e ↦ if objects.is_connection ref e then objects.create_tracks tracks e else rest
      ]

  unfoldable pub connection_add_media_tracks : ℕ → List T → Manager → Bool
  unfolding add_to_first
  connection_add_media_tracks ref tracks s = add_to_first ref tracks s.streams
