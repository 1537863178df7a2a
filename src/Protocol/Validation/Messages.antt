-- ===== src/Protocol/Validation/Messages.antt =====
-- What `validate_message` lets through has the fields of its type and no field of authority, at any
-- depth.
use rintel_core.Prelude.{
  ◌≡◌, ◌⊎◌, inl, inr, refl, String, true, false, Option, none, some, List, [], ◌++◌, any, All, In,
  All-append, any-All, all-All, All-map, contains, contains-In, ok, Result-cases, Bool-cases,
  Option-cases, ap, subst, ◌∙◌, arith, string_eq, eq_iff,
}
use rintel_core.Prelude.Dict.{lookup}
use rintel_core.Prelude.Json.{
  Json, null, boolean, integer, negative, real, text, array, object, Items, nil, cons, Fields, end,
  field, keys, get_field,
}
use rintel_core.Protocol.Validation.{
  Part, of_message, is_forbidden, protocol_version, message_fields, authority_scan, scan_items,
  scan_values, exact_fields, required, is_the_text, message_type, is_expected, validate_message,
}

-- the keys of all dictionaries in a value, at any depth
unfoldable mutual
  pub all_keys : Json → List String
  all_keys (object fs) = keys fs ++ keys_of_values fs
  all_keys (array js) = keys_of_items js
  all_keys null = []
  all_keys (boolean b) = []
  all_keys (integer n) = []
  all_keys (negative n) = []
  all_keys (real s) = []
  all_keys (text s) = []

  pub keys_of_items : Items → List String
  keys_of_items nil = []
  keys_of_items (cons j js) = all_keys j ++ keys_of_items js

  pub keys_of_values : Fields → List String
  keys_of_values end = []
  keys_of_values (field k v fs) = all_keys v ++ keys_of_values fs

-- a key that claims no authority
abbrev pub IsAllowed : String → Type 0
IsAllowed k = is_forbidden k ≡ false

mutual
  unfolding authority_scan all_keys

  scan-IsAllowed : (j : Json) → authority_scan j ≡ ok tt → All IsAllowed (all_keys j)
  scan-IsAllowed (object fs) h = elim (Bool-cases (any is_forbidden (keys fs))) [
    | inl q ↦ absurd (ground (arith, q, h))
    | inr q ↦
        All-append IsAllowed (keys fs) (keys_of_values fs) (any-All is_forbidden (keys fs) q)
          (values-IsAllowed fs (ground (arith, q, h)))
  ]
  scan-IsAllowed (array js) h = items-IsAllowed js h
  scan-IsAllowed null h = tt
  scan-IsAllowed (boolean b) h = tt
  scan-IsAllowed (integer n) h = tt
  scan-IsAllowed (negative n) h = tt
  scan-IsAllowed (real s) h = tt
  scan-IsAllowed (text s) h = tt

  items-IsAllowed : (js : Items) → scan_items js ≡ ok tt → All IsAllowed (keys_of_items js)
  items-IsAllowed nil h = tt
  items-IsAllowed (cons j js) h = elim (Result-cases (authority_scan j)) [
    | inl (u, e) ↦
        All-append IsAllowed (all_keys j) (keys_of_items js) (scan-IsAllowed j e)
          (items-IsAllowed js (ground (arith, e, h)))
    | inr (x, e) ↦ absurd (ground (arith, e, h))
  ]

  values-IsAllowed : (fs : Fields) → scan_values fs ≡ ok tt → All IsAllowed (keys_of_values fs)
  values-IsAllowed end h = tt
  values-IsAllowed (field k v fs) h = elim (Result-cases (authority_scan v)) [
    | inl (u, e) ↦
        All-append IsAllowed (all_keys v) (keys_of_values fs) (scan-IsAllowed v e)
          (values-IsAllowed fs (ground (arith, e, h)))
    | inr (x, e) ↦ absurd (ground (arith, e, h))
  ]

-- A dictionary has these keys and no others.
pub record HasExactly (ks : List String) (fs : Fields) : Type 0 where
  pub only : All (λ k. In k ks) (keys fs)
  pub each : All (λ k. In k (keys fs)) ks

pub exact-HasExactly :
    (fs : Fields) (ks : List String) (part : Part)
    → exact_fields fs ks part ≡ ok tt
    → required fs ks part ≡ ok tt
    → HasExactly ks fs
unfolding exact_fields required
exact-HasExactly fs ks part h r = record {
  only =
      All-map (λ k. contains k ks ≡ true) (λ k. In k ks) (keys fs) (λ k. contains-In k ks)
        (all-All (λ k. contains k ks) (keys fs) (ground (arith, h)));
  each =
      All-map (λ k. contains k (keys fs) ≡ true) (λ k. In k (keys fs)) ks
        (λ k. contains-In k (keys fs)) (all-All (λ k. contains k (keys fs)) ks (ground (arith, r)));
}

-- What is shown of a message that passes.
pub record IsAccepted (message : Json) (expected_type : Option String) : Type 0 where
  pub fields : Fields
  pub kind : String
  pub allowed : List String
  pub is_object : message ≡ object fields
  pub has_kind : get_field "type" fields ≡ some (text kind)
  pub known : lookup kind message_fields ≡ some allowed
  pub as_expected : (expected_type ≡ none) ⊎ (expected_type ≡ some kind)
  pub version : get_field "protocol_version" fields ≡ some (text protocol_version)
  pub exact : HasExactly allowed fields
  pub no_authority : All IsAllowed (all_keys message)

the_text : (s : String) (o : Option Json) → is_the_text s o ≡ true → o ≡ some (text s)
the_text s none h = cc
the_text s (some (text r)) h = ground (arith, eq_iff s r)
the_text s (some null) h = cc
the_text s (some (boolean b)) h = cc
the_text s (some (integer n)) h = cc
the_text s (some (negative n)) h = cc
the_text s (some (real r)) h = cc
the_text s (some (array js)) h = cc
the_text s (some (object fs)) h = cc

pub message_type-ok :
    (o : Option Json) (k : String) (ks : List String)
    → message_type o ≡ ok (k, ks)
    → (o ≡ some (text k)) × (lookup k message_fields ≡ some ks)
message_type-ok none k ks h = cc
message_type-ok (some (text s)) k ks h = elim (Option-cases (lookup s message_fields)) [
  | inl e ↦ absurd (ground (arith, e, h))
  | inr (xs, e) ↦
      let q : (s ≡ k) × (xs ≡ ks) = ground (arith, e, h) in
      (
        ap (λ x. some (text x)) q.0,
        subst (λ x. lookup x message_fields ≡ some ks) q.0 (e ∙ ap some q.1),
      )
]
message_type-ok (some null) k ks h = cc
message_type-ok (some (boolean b)) k ks h = cc
message_type-ok (some (integer n)) k ks h = cc
message_type-ok (some (negative n)) k ks h = cc
message_type-ok (some (real r)) k ks h = cc
message_type-ok (some (array js)) k ks h = cc
message_type-ok (some (object fs)) k ks h = cc

expected : (e : Option String) (k : String) → is_expected e k ≡ true → (e ≡ none) ⊎ (e ≡ some k)
expected none k h = inl refl
expected (some s) k h = inr (ground (arith, eq_iff k s))

-- A message that passes is a dictionary of a known type, of the expected one if one is expected, and
-- of this version of the protocol. It has the fields of its type and no others, and no dictionary
-- in it, at any depth, has a field of authority.
pub validate_message-IsAccepted :
    (message : Json) (expected_type : Option String)
    → validate_message message expected_type ≡ ok tt
    → IsAccepted message expected_type
unfolding validate_message
validate_message-IsAccepted (object fs) e h = elim (Result-cases (authority_scan (object fs))) [
  | inl (u, s) ↦ elim (Result-cases (message_type (get_field "type" fs))) [
    | inl ((k, ks), t) ↦
        let parts = message_type-ok (get_field "type" fs) k ks t in
        elim (Result-cases (exact_fields fs ks of_message)) [
          | inl (u2, x) ↦ elim (Result-cases (required fs ks of_message)) [
            | inl (u3, r) ↦ record {
              fields = fs;
              kind = k;
              allowed = ks;
              is_object = refl;
              has_kind = parts.0;
              known = parts.1;
              as_expected = expected e k (ground (arith, h, s, t));
              version =
                  the_text protocol_version (get_field "protocol_version" fs)
                    (ground (arith, h, s, t));
              exact = exact-HasExactly fs ks of_message x r;
              no_authority = scan-IsAllowed (object fs) s;
            }
            | inr (z, r) ↦ absurd (ground (arith, h, s, t, x, r))
          ]
          | inr (z, x) ↦ absurd (ground (arith, h, s, t, x))
        ]
    | inr (z, t) ↦ absurd (ground (arith, h, s, t))
  ]
  | inr (z, s) ↦ absurd (ground (arith, h, s))
]
validate_message-IsAccepted (array js) e h = cc
validate_message-IsAccepted null e h = cc
validate_message-IsAccepted (boolean b) e h = cc
validate_message-IsAccepted (integer n) e h = cc
validate_message-IsAccepted (negative n) e h = cc
validate_message-IsAccepted (real s) e h = cc
validate_message-IsAccepted (text s) e h = cc
