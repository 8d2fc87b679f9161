-- ===== src/Json/Value.antt =====
-- JSON values as a data type, with the operations of the library and its laws: an instance of
-- the interface, for the theorems at concrete inputs.
pub mod Laws
use mathlib.Core.Option
use edge_device_webrtc.Prelude.{
  text_eq→eq, sym, inr, inl, text_eq_refl, Bool-cases, ◌++◌, is_none, ◌>>=◌, some, refl, not,
  if◌then◌else◌, false, ap, ◌≡◌, ◌∷◌, true, none, Option, Text, text_eq, Bool, ℕ, List, [],
}
use edge_device_webrtc.Json.{lookup_field, JsonOps}

-- Arrays and objects are chains of their items and fields.
pub data Value : Type 0 where
  null : Value
  number : ℕ → Value
  text : Text → Value
  no_items : Value
  item : Value → Value → Value
  no_fields : Value
  field : Text → Value → Value → Value

abbrev items_of : Value → List Value
items_of (item v rest) = v ∷ items_of rest
items_of v = []

abbrev is_array : Value → Bool
is_array no_items = true
is_array (item v rest) = true
is_array v = false

abbrev array_of : List Value → Value
array_of [] = no_items
array_of (v ∷ vs) = item v (array_of vs)

abbrev Fields : Type 0
Fields = List (Text × Value)

abbrev fields_of : Value → Fields
fields_of (field k v rest) = (k, v) ∷ fields_of rest
fields_of v = []

-- `null` turns into an object when an entry of it is taken.
abbrev is_object : Value → Bool
is_object null = true
is_object no_fields = true
is_object (field k v rest) = true
is_object v = false

abbrev object_of : Fields → Value
object_of [] = no_fields
object_of ((k, v) ∷ fields) = field k v (object_of fields)

-- The entry at a key and the fields after it: a missing one is `null`.
abbrev take_field : Text → Fields → Value × Fields
take_field k [] = (null, (k, null) ∷ [])
take_field k ((l, v) ∷ fields) =
    let (w, rest) = take_field k fields in
    if text_eq k l then (v, (l, v) ∷ fields) else (w, (l, v) ∷ rest)

abbrev put_field : Text → Value → Fields → Fields
put_field k v [] = (k, v) ∷ []
put_field k v ((l, w) ∷ fields) =
    let rest = put_field k v fields in if text_eq k l then (l, v) ∷ fields else (l, w) ∷ rest

abbrev pub entry_of : Text → Value → Option (Value × Value)
entry_of k j =
    let (v, fields) = take_field k (fields_of j) in
    if is_object j then some (v, object_of fields) else none

abbrev pub put_entry : Text → Value → Value → Option Value
put_entry k v j = if is_object j then some (object_of (put_field k v (fields_of j))) else none

abbrev push_item : Text → Value → Value → Option Value
push_item k v j = do
  (old, after) ← entry_of k j
  if is_array old then put_entry k (array_of (items_of old ++ v ∷ [])) after else none

abbrev number_of : Value → Option ℕ
number_of (number n) = some n
number_of v = none

abbrev text_of : Value → Option Text
text_of (text t) = some t
text_of v = none

abbrev pub value_json : JsonOps Value
value_json = record {
  parse = λ t. none;
  dump = λ j. [];
  dumps = λ j. true;
  field = λ j k. Option.map (λ p. p.0) (entry_of k j);
  contains = λ j k. not (is_none (lookup_field k (fields_of j)));
  entry = entry_of;
  set_entry = put_entry;
  push_entry = push_item;
  get_int = number_of;
  get_string = text_of;
  get_bool = λ j. none;
  get_array = λ j. if is_array j then some (items_of j) else none;
  get_bytes = λ j. none;
  number = number;
  string = text;
  array = array_of;
  object = object_of;
}
