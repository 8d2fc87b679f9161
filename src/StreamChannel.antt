-- ===== src/StreamChannel.antt =====
-- The data channel that forwards a Nabto stream:
-- src/library/webrtc-connection/webrtc_stream_channel.cpp. The Nabto SDK resolves the future, the
-- event queue runs the jobs, and libdatachannel tells that the channel closed.
pub mod Forwards
mod Tests
use edge_device_webrtc.Prelude.{
  ◌+◌, ◌∷◌, ◌++◌, none, some, if◌then◌else◌, [], true, false, Text, Option, Bool, List, ℕ,
}

pub data ReadResult : Type 0 where
  read_data : Text → ReadResult
  read_eof read_failed : ReadResult

-- The jobs that the callbacks post.
pub data ChannelJob : Type 0 where
  start_reading forward end_stream : ChannelJob

-- `channel` is whether `channel_` is set, `reading` whether a read is pending; `sent` is what the
-- data channel was given and `closes` how often it was closed.
pub record StreamChannel : Type 0 where
  pub channel : Bool
  pub opening : Bool
  pub reading : Bool
  pub buffer : Text
  pub posted : Option ChannelJob
  pub sent : List Text
  pub closes : ℕ

-- `init`
abbrev pub opened_channel : StreamChannel
opened_channel = record {
  channel = true;
  opening = true;
  reading = false;
  buffer = [];
  posted = none;
  sent = [];
  closes = 0;
}

unfoldable pub data_channel_closed : StreamChannel → StreamChannel
data_channel_closed s = record s { channel = false }

unfoldable pub stream_opened : Bool → StreamChannel → StreamChannel
stream_opened ok s = record s { opening = false; posted = if ok then some start_reading else none }

unfoldable pub start_read : StreamChannel → StreamChannel
start_read s = record s { reading = true }

-- The SDK has put the data into the buffer when it calls this.
unfoldable pub stream_read_cb : ReadResult → StreamChannel → StreamChannel
stream_read_cb (read_data d) s = record s { reading = false; buffer = d; posted = some forward }
stream_read_cb read_eof s = record s { reading = false; posted = some end_stream }
stream_read_cb read_failed s = record s { reading = false }

-- `none` is a call through the null pointer.
unfoldable pub run_channel_job : ChannelJob → StreamChannel → Option StreamChannel
unfolding start_read
run_channel_job start_reading s = some (start_read (record s { posted = none }))
run_channel_job forward s =
    if s.channel
    then some (start_read (record s { posted = none; sent = s.sent ++ s.buffer ∷ [] }))
    else none
run_channel_job end_stream s =
    if s.channel
    then some (record s { posted = none; channel = false; closes = s.closes + 1 })
    else none
