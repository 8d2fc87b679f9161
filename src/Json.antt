-- ===== src/Json.antt =====
-- The JSON library (nlohmann::json) that the sources call, as an interface: its operations are
-- arguments of the definitions that use them, and what they promise is a record of laws.
pub mod Toy
pub mod Value
use edge_device_webrtc.Prelude.{
  false, text_eq, some, ◌≡◌, none, ℕ, Option, List, Text, Bool, [], ◌∷◌, if◌then◌else◌,
}

-- `J` stands for `nlohmann::json`. An operation that may throw returns `none` where it does.
pub record JsonOps (J : Type 0) : Type 0 where
  -- `json::parse`; `none` is `parse_error`.
  pub parse : Text → Option J
  -- `dump`; it throws `type_error` on a text that is not UTF-8, unless `dumps` holds.
  pub dump : J → Text
  pub dumps : J → Bool
  -- `j[key]`; `none` is `type_error` (`j` is no object).
  pub field : J → Text → Option J
  pub contains : J → Text → Bool
  -- `j[key]` on a `j` that can change: the entry, and `j` with it, since a missing one is added.
  pub entry : Text → J → Option (J × J)
  -- `j[key] = v` and `j[key].push_back(v)`.
  pub set_entry : Text → J → J → Option J
  pub push_entry : Text → J → J → Option J
  pub get_int : J → Option ℕ
  pub get_string : J → Option Text
  pub get_bool : J → Option Bool
  pub get_array : J → Option (List J)
  pub get_bytes : J → Option Text
  pub number : ℕ → J
  pub string : Text → J
  pub array : List J → J
  pub object : List (Text × J) → J

abbrev pub lookup_field {ℓ} : {A : Type ℓ} → Text → List (Text × A) → Option A
lookup_field k [] = none
lookup_field k ((l, v) ∷ fields) =
    let rest = lookup_field k fields in if text_eq k l then some v else rest

-- What the code relies on: what is written is read again, and other entries stay.
pub record JsonLaws {J : Type 0} (json : JsonOps J) : Type 0 where
  pub string_back : (t : Text) → json.get_string (json.string t) ≡ some t
  pub array_back : (js : List J) → json.get_array (json.array js) ≡ some js
  pub object_entry :
      (k : Text) (v : J) (fields : List (Text × J))
      → lookup_field k fields ≡ some v
      → (after : J) × (json.entry k (json.object fields) ≡ some (v, after))
  pub read_again :
      (k : Text) (j v after : J)
      → json.entry k j ≡ some (v, after)
      → json.entry k after ≡ some (v, after)
  -- Where an entry can be read, one can be written.
  pub set_defined :
      (k l : Text) (j v w after : J)
      → json.entry l j ≡ some (w, after)
      → (written : J) × (json.set_entry k v j ≡ some written)
  pub read_written :
      (k : Text) (j v written : J)
      → json.set_entry k v j ≡ some written
      → (after : J) × (json.entry k written ≡ some (v, after))
  pub read_other :
      (k l : Text) (j v written w after : J)
      → text_eq l k ≡ false
      → json.set_entry k v j ≡ some written
      → json.entry l j ≡ some (w, after)
      → (again : J) × (json.entry l written ≡ some (w, again))
