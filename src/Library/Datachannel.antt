-- ===== src/Library/Datachannel.antt =====
-- Data channels: `DatachannelImpl` of src/library/api/datachannel_impl.{hpp,cpp}. Callbacks are
-- numbers.
use mathlib.Core.Option
use edge_device_webrtc.Prelude.{
  refl, [], ◌≡◌, ◌∷◌, some, if◌then◌else◌, false, ◌++◌, true, none, Text, Option, Bool, List, ℕ,
}

pub data MessageType : Type 0 where
  message_string message_binary message_none : MessageType

pub data DatachannelCall : Type 0 where
  send_message_as : MessageType → Text → DatachannelCall
  call_message : ℕ → MessageType → Text → DatachannelCall
  call_closed : ℕ → DatachannelCall

pub record DatachannelImpl : Type 0 where
  pub label : Text
  pub channel : Bool
  pub message_cb : Option ℕ
  pub closed_cb : Option ℕ
  pub calls : List DatachannelCall

abbrev pub new_datachannel : Text → DatachannelImpl
new_datachannel label = record {
  label = label;
  channel = false;
  message_cb = none;
  closed_cb = none;
  calls = [];
}

unfoldable pub channel_called : DatachannelCall → DatachannelImpl → DatachannelImpl
channel_called c s = record s { calls = s.calls ++ c ∷ [] }

-- `is_open` is what libdatachannel's channel answers; `none` is a call through the null pointer.
unfoldable pub send_message : Bool → Text → MessageType → DatachannelImpl → Option DatachannelImpl
unfolding channel_called
send_message is_open data_ type s =
    if s.channel
    then some (if is_open then channel_called (send_message_as type data_) s else s)
    else none

unfoldable pub set_rtc_channel : DatachannelImpl → DatachannelImpl
set_rtc_channel s = record s { channel = true }

-- The callbacks of `setRtcChannel`; a callback that is not set throws: `none`.
unfoldable pub receive_message : MessageType → Text → DatachannelImpl → Option DatachannelImpl
unfolding channel_called
receive_message type data_ s =
    Option.map (λ cb. channel_called (call_message cb type data_) s) s.message_cb

unfoldable pub call_closed_if_set : Option ℕ → DatachannelImpl → DatachannelImpl
unfolding channel_called
call_closed_if_set none s = s
call_closed_if_set (some cb) s = channel_called (call_closed cb) s

unfoldable pub datachannel_closed : DatachannelImpl → DatachannelImpl
unfolding call_closed_if_set
datachannel_closed s = record (call_closed_if_set s.closed_cb s) {
  message_cb = none;
  closed_cb = none;
  channel = false;
}

-- Once its connection has closed, a channel cannot be used: to send is a call through the null
-- pointer, a message throws, and the close callback is not called again.
datachannel_closed-unusable :
    (s : DatachannelImpl) (is_open : Bool) (d : Text) (type : MessageType)
    → (send_message is_open d type (datachannel_closed s) ≡ none)
      × (receive_message type d (datachannel_closed s) ≡ none)
      × ((datachannel_closed (datachannel_closed s)).calls ≡ (datachannel_closed s).calls)
unfolding send_message receive_message datachannel_closed call_closed_if_set
datachannel_closed-unusable s is_open d type = (refl, refl, refl)
