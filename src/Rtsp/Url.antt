-- ===== src/Rtsp/Url.antt =====
-- The constructor `RtspClient::RtspClient` of src/modules/rtsp-client/rtsp_client.cpp: the
-- credentials in the configured URL.
use edge_device_webrtc.Rtsp.Strings.{npos, sub64, substr}
use edge_device_webrtc.Rtsp.Strings.{find_from}
use edge_device_webrtc.Util.Url.{url_decode}
use edge_device_webrtc.Prelude.{
  ◌>>=◌, ◌++◌, false, ◌+◌, true, [], some, none, codes, find, ℕ, Option, Bool, Text,
}

pub record Endpoint : Type 0 where
  pub url : Text
  pub username : Text
  pub password : Text
  -- Whether the rest of the configuration (`preferTcp`, `port`, negotiators, repacketizers) is taken.
  pub configured : Bool

-- The credentials between the positions of the second colon and of the at sign.
unfoldable pub with_credentials : Text → ℕ → ℕ → Option Endpoint
unfolding url_decode
with_credentials url at col = do
  username ← substr url 7 (sub64 col 7)
  password ← substr url (col + 1) (sub64 (sub64 at col) 1)
  host ← substr url (at + 1) npos
  some (record {
    url = codes "rtsp://" ++ host;
    username = url_decode username;
    password = url_decode password;
    configured = true;
  })

-- Where the search for the second colon starts: `col + 1` is 0 where there is no first.
unfoldable pub second_start : Text → ℕ
second_start url = elim (find (codes ":") url) [ none ↦ 0 | some first ↦ first + 1 ]

-- `none` is the exception of `substr`.
unfoldable pub parse_url : Text → Option Endpoint
unfolding with_credentials second_start
parse_url url = elim (find (codes "@") url) [
  | none ↦ some (record { url = url; username = []; password = []; configured = true })
  | some at ↦ elim (find_from (codes ":") (second_start url) url) [
    | none ↦ some (record { url = url; username = []; password = []; configured = false })
    | some col ↦ with_credentials url at col
  ]
]
