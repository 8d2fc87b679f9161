-- ===== src/Connection/Turn.antt =====
-- `parseTurnServers` of src/library/webrtc-connection/webrtc_util.hpp.
pub mod Escape
use edge_device_webrtc.Signaling.State.{TurnServer}
use edge_device_webrtc.Prelude.{
  ◌>>=◌, zero, ◌+◌, take, drop, ◌||◌, length, find, [], ◌∷◌, ◌&&◌, suc, codes, ◌++◌, starts_with,
  some, not, none, is_empty, if◌then◌else◌, Option, ℕ, Text, List,
}
use mathlib.Core.Option

-- `while (n != npos) { username.replace(n, 1, "%3A"); n = username.find(":"); }`, with fuel; `none`
-- is no outcome of the code.
unfoldable pub escape_loop : ℕ → Text → Option Text
escape_loop zero username = none
escape_loop (suc fuel) username = elim (find (codes ":") username) [
  | none ↦ some username
  | some n ↦ escape_loop fuel (take n username ++ (codes "%3A" ++ drop (n + 1) username))
]

-- `rfind("turn:", 0) == 0` or the same for `stun:`.
unfoldable pub strip_scheme : Text → Text
strip_scheme host =
    if starts_with (codes "turn:") host || starts_with (codes "stun:") host
    then drop 5 host
    else host

-- What stands in front of the host. Each round takes one colon, so the length is fuel enough.
unfoldable pub user_info : TurnServer → Option Text
unfolding escape_loop
user_info t =
    if not (is_empty t.username) && not (is_empty t.credential)
    then Option.map (λ user. user ++ (codes ":" ++ (t.credential ++ codes "@")))
        (escape_loop (suc (length t.username)) t.username)
    else some []

unfoldable pub protocol : TurnServer → Text
protocol t = if is_empty t.username then codes "stun:" else codes "turn:"

-- The URL that is handed to `rtc::IceServer`.
unfoldable pub server_url : TurnServer → Text → Option Text
unfolding strip_scheme user_info protocol
server_url t u = Option.map (λ info. protocol t ++ (info ++ strip_scheme u)) (user_info t)

unfoldable pub server_urls : TurnServer → List Text → Option (List Text)
unfolding server_url
server_urls t [] = some []
server_urls t (u ∷ us) = do url ← server_url t u; rest ← server_urls t us; some (url ∷ rest)

unfoldable pub parse_turn_servers : List TurnServer → Option (List Text)
unfolding server_urls
parse_turn_servers [] = some []
parse_turn_servers (t ∷ ts) = do
  urls ← server_urls t t.urls
  rest ← parse_turn_servers ts
  some (urls ++ rest)
