-- ===== src/Json/Toy.antt =====
-- A concrete JSON interface, for the runs and the instances at concrete inputs.
use edge_device_webrtc.Prelude.{
  true, ◌-◌, ◌&&◌, leb, codes, if◌then◌else◌, [], ◌∷◌, ◌+◌, none, ℕ, false, some, Option, Text,
}
use edge_device_webrtc.Json.{JsonOps}

-- A library in which a value is its text: every operation of it that the stream calls on a text
-- that starts with a digit succeeds, and `get_int` is that digit.
abbrev pub digit : Text → Option ℕ
digit [] = none
digit (c ∷ cs) = if leb b'0' c && leb c b'9' then some (c - b'0') else none

abbrev pub toy_json : JsonOps Text
toy_json = record {
  parse = λ t. some t;
  dump = λ j. j;
  dumps = λ j. true;
  field = λ j k. some j;
  contains = λ j k. false;
  entry = λ k j. none;
  set_entry = λ k v j. none;
  push_entry = λ k v j. none;
  get_int = digit;
  get_string = λ j. some j;
  get_bool = λ j. none;
  get_array = λ j. none;
  get_bytes = λ j. none;
  number = λ n. (n + b'0') ∷ [];
  string = λ t. t;
  array = λ js. [];
  object = λ fields. codes "{}";
}
