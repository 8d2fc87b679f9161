-- ===== src/Json/Value/Laws.antt =====
-- The laws of the JSON library hold for the values of the data type.
use edge_device_webrtc.Json.Value.{
  put_entry, put_field, object_of, take_field, is_object, fields_of, array_of, value_json, items_of,
  is_array, entry_of, Fields, Value,
}
use edge_device_webrtc.Prelude.{
  ◌∙◌, arith, text_eq→eq, sym, inr, inl, text_eq_refl, Bool-cases, some, refl, false, ap, ◌≡◌, ◌∷◌,
  true, Text, text_eq, List, [],
}
use edge_device_webrtc.Json.{JsonLaws, lookup_field}

fields_of-object_of : (fields : Fields) → fields_of (object_of fields) ≡ fields
fields_of-object_of [] = refl
fields_of-object_of ((k, v) ∷ fields) = ap (◌∷◌ (k, v)) (fields_of-object_of fields)

items_of-array_of : (vs : List Value) → items_of (array_of vs) ≡ vs
items_of-array_of [] = refl
items_of-array_of (v ∷ vs) = ap (◌∷◌ v) (items_of-array_of vs)

array_of-is_array : (vs : List Value) → is_array (array_of vs) ≡ true
array_of-is_array [] = refl
array_of-is_array (v ∷ vs) = refl

object_of-is_object : (fields : Fields) → is_object (object_of fields) ≡ true
object_of-is_object [] = refl
object_of-is_object ((k, v) ∷ fields) = refl

-- Read again after a read, after a write at the key, after a write at another key.
take_field-again :
    (k : Text) (fields : Fields) → take_field k ((take_field k fields).1) ≡ take_field k fields
take_field-again k [] = rw (text_eq_refl k) refl
take_field-again k ((l, v) ∷ fields) = elim (Bool-cases (text_eq k l)) [
  | inl same ↦ rw (same, same) refl
  | inr other ↦ rw (other, other, take_field-again k fields) refl
]

take_field-put_field :
    (k : Text) (v : Value) (fields : Fields) → (take_field k (put_field k v fields)).0 ≡ v
take_field-put_field k v [] = rw (text_eq_refl k) refl
take_field-put_field k v ((l, w) ∷ fields) = elim (Bool-cases (text_eq k l)) [
  | inl same ↦ rw (same, same) refl
  | inr other ↦ rw (other, other) (take_field-put_field k v fields)
]

take_field-other :
    (k l : Text) (v : Value) (fields : Fields)
    → text_eq l k ≡ false
    → (take_field l (put_field k v fields)).0 ≡ (take_field l fields).0
take_field-other k l v [] h = rw h refl
take_field-other k l v ((m, w) ∷ fields) h = elim (Bool-cases (text_eq k m)) [
  | inl same ↦
      let apart : text_eq l m ≡ false = rw (sym (text_eq→eq k m same)) h in rw (same, apart) refl
  | inr other ↦ elim (Bool-cases (text_eq l m)) [
    | inl here ↦ rw (other, here) refl
    | inr there ↦ rw (other, there) (take_field-other k l v fields h)
  ]
]

take_field-lookup_field :
    (k : Text) (v : Value) (fields : Fields)
    → lookup_field k fields ≡ some v
    → (take_field k fields).0 ≡ v
take_field-lookup_field k v [] h = absurd cc
take_field-lookup_field k v ((l, w) ∷ fields) h = elim (Bool-cases (text_eq k l)) [
  | inl same ↦ rw same (ground arith)
  | inr other ↦ rw other (take_field-lookup_field k v fields (ground arith))
]

entry_of-object :
    (k : Text) (j v after : Value)
    → entry_of k j ≡ some (v, after)
    → (is_object j ≡ true)
      × (v ≡ (take_field k (fields_of j)).0)
      × (after ≡ object_of ((take_field k (fields_of j)).1))
entry_of-object k j v after h = elim (Bool-cases (is_object j)) [
  | inl there ↦ ground arith
  | inr apart ↦ absurd (ground arith)
]

put_entry-object :
    (k : Text) (v j written : Value)
    → put_entry k v j ≡ some written
    → written ≡ object_of (put_field k v (fields_of j))
put_entry-object k v j written h = elim (Bool-cases (is_object j)) [
  | inl there ↦ ground arith
  | inr apart ↦ absurd (ground arith)
]

entry_of-object_of :
    (k : Text) (v : Value) (fields : Fields)
    → (take_field k fields).0 ≡ v
    → entry_of k (object_of fields) ≡ some (v, object_of ((take_field k fields).1))
entry_of-object_of k v fields h =
    rw (object_of-is_object fields, fields_of-object_of fields, h) refl

read_after :
    (k : Text) (j v after : Value)
    → entry_of k j ≡ some (v, after)
    → entry_of k after ≡ some (v, after)
read_after k j v after h =
    let (there, value, left) = entry_of-object k j v after h in
    let fields = take_field k (fields_of j) in
    let again = take_field-again k (fields_of j) in
    rw left (
      entry_of-object_of k v (fields.1) (ap (λ p. p.0) again ∙ sym value)
      ∙ ap (λ p. some (v, object_of p.1)) again)

read_elsewhere :
    (k l : Text) (j v written w after : Value)
    → text_eq l k ≡ false
    → put_entry k v j ≡ some written
    → entry_of l j ≡ some (w, after)
    → (again : Value) × (entry_of l written ≡ some (w, again))
read_elsewhere k l j v written w after apart set opened =
    let (there, value, left) = entry_of-object l j w after opened in
    let fields = put_field k v (fields_of j) in
    (
      object_of ((take_field l fields).1),
      rw (put_entry-object k v j written set)
          (entry_of-object_of l w fields (take_field-other k l v (fields_of j) apart ∙ sym value)),
    )

pub value_laws : JsonLaws value_json
value_laws = record {
  string_back = λ t. refl;
  array_back = λ js. rw (array_of-is_array js, items_of-array_of js) refl;
  object_entry = λ k v fields h. (
    object_of ((take_field k fields).1),
    entry_of-object_of k v fields (take_field-lookup_field k v fields h),
  );
  read_again = read_after;
  set_defined = λ k l j v w after h.
      (object_of (put_field k v (fields_of j)), rw (entry_of-object l j w after h).0 refl);
  read_written = λ k j v written h. (
    object_of ((take_field k (put_field k v (fields_of j))).1),
    rw (put_entry-object k v j written h) (
        entry_of-object_of k v (put_field k v (fields_of j))
          (take_field-put_field k v (fields_of j))),
  );
  read_other = read_elsewhere;
}
