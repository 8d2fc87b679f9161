-- ===== src/Rtsp/Start/Finish.antt =====
-- How the start of an RTSP client (src/modules/rtsp-client/rtsp_client.cpp) ends.
use edge_device_webrtc.Rtsp.Client.{Client}
