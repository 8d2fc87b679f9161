-- ===== src/Lib.antt =====
-- edge_device_webrtc: WebRTC for devices on the Nabto Edge platform.
--
-- A client reaches the device over a signaling stream. The stream reads and writes framed JSON
-- objects, sends TURN servers, and hands offers, answers and ICE candidates to a WebRTC connection,
-- which gives media tracks and a CoAP channel to the application; handlers run on an event queue. A
-- track negotiator chooses the codec of a track; the media comes from an RTSP server, an RTP port or a
-- file, through packetizers and repacketizers for RTP. A demo program adds access control, CoAP
-- handlers, the check of OAuth tokens and a stream that sends a file. This development models these parts and the
-- helpers that they share. The comment at the top of each file names the source it translates.
--
-- Prelude: texts as lists of bytes, tests, lists and maps over the native numbers.
-- Json: the JSON library as an interface, with what it promises as laws; an operation that throws
--   returns `none`. Json/Value is an instance of both.
-- Signaling: `SignalingStream` of src/library/signaling-stream. Signaling/State is the object and the
--   calls that it makes to the SDK, Signaling/Stream its reads, writes and close, Signaling/Object
--   what it does with a parsed object, Signaling/Events the order in which futures resolve, and
--   Signaling/Frame the frames. Signaling/Manager is `SignalingStreamManager`. Signaling/Invariant, Order, Drain and Release are about them.
-- Util: src/modules/util. Util/Hex is `fromHex` and `toHex`, Util/Url `urlDecode`, and Util/Curl the
--   requests of `CurlAsync`.
-- Packetizer: src/modules/rtp-packetizer. Packetizer/Pcmu is `PcmuPacketizer::incoming`,
--   Packetizer/H264/Nal is `NalUnit`, and Packetizer/H264/Stream is `H264Packetizer::incoming`.
-- Negotiator: `match` of the negotiators in src/modules/track-negotiators. Negotiator/Media is
--   libdatachannel's media description as an interface with laws.
-- Connection: `WebrtcConnection` of src/library/webrtc-connection. Connection/State is the object and
--   the calls that it makes, Connection/Signals reads the messages of the client,
--   Connection/Negotiation is `handleSignalingMessage`, Connection/Sending what the device sends,
--   Connection/Metadata `updateMetaTracks`, Connection/Tracks the media tracks, Connection/Lifecycle
--   the callback of `onStateChange`, Connection/Channels the labels of `handleDatachannelEvent`,
--   Connection/Coap the CoAP channel of webrtc_coap_channel.cpp, and
--   Connection/Turn the URLs of TURN servers in webrtc_util.hpp.
-- StreamChannel: `WebrtcFileStreamChannel` of webrtc_stream_channel.cpp, which forwards a Nabto stream
--   to a data channel.
-- Library: src/library/api. Library/Track is `MediaTrackImpl` and Library/Datachannel
--   `DatachannelImpl`.
-- Listeners: src/library/nabto-listeners. One model stands for the listener for streams and that for
--   CoAP requests, which differ in the calls of the SDK only.
-- EventQueue: src/modules/event-queue, with the steps of its threads in any order in
--   EventQueue/Order.
-- Rtp: src/modules/rtp-client and src/modules/rtp-repacketizer. Rtp/Client is `RtpClient`, Rtp/Runner
--   its thread and its receive callback, and Rtp/Library the header of RTP packets as an interface with
--   laws; Rtp/Running and Rtp/Dispatch are about when it runs and where packets go.
-- Fifo: `FifoFileClient` of src/modules/fifo-file-client.
-- Rtsp: `RtspClient` of src/modules/rtsp-client. Rtsp/Url is the constructor, Rtsp/Client the state and
--   the calls of libcurl, Rtsp/Describe `sendDescribe` and `parseDescribeHeaders`, Rtsp/Sdp
--   `parseSdpDescription`, and Rtsp/Setup `setupRtsp` and `performSetupReq`. Rtsp/Start is
--   `start` and `close`, Rtsp/Connections what `stop` and the connections of the stream do,
--   Rtsp/Tcp `TcpRtpClient`, Rtsp/Rtcp `RtcpClient` and Rtsp/Stream `RtspStream`.
-- Demo: examples/webrtc-demo. Demo/Streams is the interface `MediaStream`, Demo/TrackEvent the callback
--   for tracks, Demo/Coap the CoAP handlers of main.cpp, Demo/Requests those of nabto_device.cpp,
--   Demo/Oauth the check of tokens in oauth_validator.hpp, Demo/Challenge the response to a challenge,
--   Demo/Key the reading of the private key, Demo/Options the command line, and Demo/FileStream the
--   stream that sends a file. Demo/Answers is about all handlers.
--
-- Bounds and fuel: lengths in frames, timestamps and ports wrap at their widths, written out by `%`.
-- The loops of the packetizers take the length of the buffer as fuel, since each round takes bytes off
-- it. The size of a frame is computed in 32 bits and wraps around near their end. `sendDescribe` calls itself and takes fuel, of which 2 is enough where the hash can be computed.
--
-- A function that an exception leaves has an ending of its own where the exception matters: the start of
-- the RTSP client, which a port that is not free or a negotiator ends, and the messages of the
-- connection, whose text can be refused by the JSON library.
--
-- Not modelled: the registration of callbacks and the objects of data channels in the WebRTC
-- connection, the waiting of the FIFO client on its file, the set-up of the SDK and of IAM in the demo
-- program, the smaller programs under examples, and those under test and test-apps. The SDK with
-- its IAM module, libcurl, libdatachannel, jwt-cpp, OpenSSL, MD5, base64 and the JSON library are
-- arguments. Logging is left out. Threads appear where the code hands work between
-- them, as steps in any order.
pub mod Prelude
pub mod Json
pub mod Signaling
pub mod Util
pub mod Packetizer
pub mod Negotiator
pub mod Connection
pub mod EventQueue
pub mod Fifo
pub mod Rtp
pub mod Rtsp
pub mod Library
pub mod Listeners
pub mod StreamChannel
pub mod Demo
