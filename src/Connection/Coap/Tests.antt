-- ===== src/Connection/Coap/Tests.antt =====
-- The theorem on requests for one that fails.
use edge_device_webrtc.Connection.Coap.Names.{parse_method-method_name_iff}
use edge_device_webrtc.Prelude.{◌↔◌, refl, ◌≡◌, none, false, [], text_eq, Bool, some, codes, Text}
use edge_device_webrtc.Connection.Coap.Once.{resolved, message, created, next, Reach-Once, Once}
use edge_device_webrtc.Json.Value.{Value, field, text, number, no_fields, value_json}
use edge_device_webrtc.Json.{JsonOps}
use edge_device_webrtc.Connection.Coap.{
  put_method, parse_method, respond, new_channel, accept, get_method, drop_request, coap_error,
  handle_string_message, handle_coap_response, CoapRequest,
}

abbrev request_object : Value
request_object = field (codes "type") (number 0) (
    field (codes "requestId") (text (codes "r1")) (
      field (codes "method") (text (codes "GET"))
        (field (codes "path") (text (codes "/a")) no_fields)))

-- A library that parses every text to this object.
abbrev one_json : JsonOps Value
one_json = record value_json { parse = λ t. some request_object }

abbrev sends : Text → Bool
sends t = false

abbrev get_request : CoapRequest
get_request = record {
  request_id = codes "r1";
  method = get_method;
  path = codes "/a";
  payload = [];
  content_type = none;
}

one_pending :
    handle_string_message one_json sends (codes "{}") new_channel
    ≡ some (accept get_request new_channel)
unfolding handle_string_message text_eq
one_pending = refl

one_failed :
    handle_coap_response one_json sends 0 coap_error (accept get_request new_channel)
    ≡ some (drop_request 0 (accept get_request new_channel))
unfolding handle_coap_response accept respond drop_request
one_failed = refl

Reach-Once_example : Once (drop_request 0 (accept get_request new_channel)) 0
Reach-Once_example = Reach-Once one_json sends 0 (
    next (next created (message (codes "{}") (accept get_request new_channel) one_pending))
      (resolved 0 coap_error (drop_request 0 (accept get_request new_channel)) one_failed))

parse_method-method_name_iff_example :
    (parse_method (codes "PUT") ≡ some put_method) ↔ (codes "PUT" ≡ codes "PUT")
parse_method-method_name_iff_example = parse_method-method_name_iff (codes "PUT") put_method
