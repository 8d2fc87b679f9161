-- ===== src/Connection/Coap/Names.antt =====
-- The names of CoAP methods in requests
-- (src/library/webrtc-connection/webrtc_coap_channel.cpp).
use edge_device_webrtc.Prelude.{
  ◌↔◌, text_eq→eq, none, ◌∙◌, some_injective, inr, sym, inl, true, refl, ap, Bool-cases, text_eq,
  some, codes, ◌≡◌, Text,
}
use edge_device_webrtc.Connection.Coap.{
  delete_method, put_method, post_method, get_method, parse_method, CoapMethod,
}

abbrev pub method_name : CoapMethod → Text
method_name get_method = codes "GET"
method_name post_method = codes "POST"
method_name put_method = codes "PUT"
method_name delete_method = codes "DELETE"

parse_method-method_name : (m : CoapMethod) → parse_method (method_name m) ≡ some m
unfolding parse_method text_eq
parse_method-method_name get_method = refl
parse_method-method_name post_method = refl
parse_method-method_name put_method = refl
parse_method-method_name delete_method = refl

named :
    (t s : Text) (k m : CoapMethod)
    → text_eq t s ≡ true
    → method_name k ≡ s
    → some k ≡ some m
    → method_name m ≡ t
named t s k m h e same = sym (ap method_name (some_injective same)) ∙ e ∙ sym (text_eq→eq t s h)

method_name-parse_method : (t : Text) (m : CoapMethod) → parse_method t ≡ some m → method_name m ≡ t
unfolding parse_method
method_name-parse_method t m h = elim (Bool-cases (text_eq t (codes "GET"))) [
  | inl a ↦ named t (codes "GET") get_method m a refl (rw a at h)
  | inr a ↦ elim (Bool-cases (text_eq t (codes "POST"))) [
    | inl b ↦ named t (codes "POST") post_method m b refl (rw (a, b) at h)
    | inr b ↦ elim (Bool-cases (text_eq t (codes "PUT"))) [
      | inl c ↦ named t (codes "PUT") put_method m c refl (rw (a, b, c) at h)
      | inr c ↦ elim (Bool-cases (text_eq t (codes "DELETE"))) [
        | inl d ↦ named t (codes "DELETE") delete_method m d refl (rw (a, b, c, d) at h)
        | inr d ↦ absurd (let bad : none ≡ some m = rw (a, b, c, d) at h in cc)
      ]
    ]
  ]
]

-- A text is accepted as the method of a request if and only if it is the name of that method: "GET",
-- "POST", "PUT" and "DELETE" stand for the four methods, and no other text, in whatever case, is
-- accepted.
pub parse_method-method_name_iff :
    (t : Text) (m : CoapMethod) → (parse_method t ≡ some m) ↔ (t ≡ method_name m)
parse_method-method_name_iff t m =
    (λ h. sym (method_name-parse_method t m h), λ h. ap parse_method h ∙ parse_method-method_name m)
