-- ===== src/Lifecycle/Values.antt =====
-- The conversions of rintel/design_lifecycle on JSON values that a caller gives: `list`, `dict`, `set`
-- and `==`. They raise `TypeError` or `ValueError`, here `malformed_value`, which is no code of the
-- service.
pub mod Conversions
use rintel_core.Prelude.{
  String, Bool, true, false, ◌&&◌, not, Option, none, some, List, [], ◌∷◌, map, all, Result, ok,
  err, raise_if, ◌>>◌, ◌>>=◌, ◌==◌, string_eq, nat_eq, if◌then◌else◌,
}
use rintel_core.Prelude.Json.{
  Json, null, boolean, integer, negative, real, text, array, object, Items, nil, cons, Fields, end,
  field, get_field, field_count, items, item_list, keys,
}
use rintel_core.Lifecycle.Models.{Code, malformed_value}

-- `==` of two JSON values, but for that of a boolean or a float with an integer
unfoldable mutual
  pub same_json : Json → Json → Bool
  same_json null null = true
  same_json (boolean true) (boolean true) = true
  same_json (boolean false) (boolean false) = true
  same_json (integer n) (integer m) = n == m
  same_json (negative n) (negative m) = n == m
  same_json (real a) (real b) = a == b
  same_json (text a) (text b) = a == b
  same_json (array a) (array b) = same_items a b
  same_json (object a) (object b) = field_count a == field_count b && are_within a b
  same_json a b = false

  same_items : Items → Items → Bool
  same_items nil nil = true
  same_items (cons a ks) (cons b bs) = same_json a b && same_items ks bs
  same_items a b = false

  are_within : Fields → Fields → Bool
  are_within end b = true
  are_within (field k v fs) b =
      elim (get_field k b) [ none ↦ false | some w ↦ same_json v w ] && are_within fs b

-- `value in values`
unfoldable pub is_among : Json → List Json → Bool
unfolding same_json
is_among v [] = false
is_among v (w ∷ ws) = elim (same_json v w) [ true ↦ true | false ↦ is_among v ws ]

-- `mapping.get(key, default)`
abbrev pub or_else : Json → Option Json → Json
or_else d none = d
or_else d (some v) = v

-- `mapping[key] = value`
abbrev pub set_field : String → Json → Fields → Fields
set_field k v end = field k v end
set_field k v (field j w fs) =
    let rest = set_field k v fs in if j == k then field j v fs else field j w rest

-- the characters of a text
abbrev pub characters : String → List Json
characters String.[] = []
characters (String.◌∷◌ c s) = text (String.◌∷◌ c "") ∷ characters s

-- what a loop over a value runs over
unfoldable pub iterate : Json → Result Code (List Json)
unfolding item_list keys
iterate (array js) = ok (item_list js)
iterate (object fs) = ok (map text (keys fs))
iterate (text s) = ok (characters s)
iterate _ = err malformed_value

-- a list and a dictionary have no hash
abbrev pub is_hashable : Json → Bool
is_hashable (array js) = false
is_hashable (object fs) = false
is_hashable _ = true

-- `set(value)`, also `tuple(value)` where it is put into a set
unfoldable pub set_of : Json → Result Code (List Json)
unfolding iterate
set_of v = do js ← iterate v; raise_if (not (all is_hashable js)) malformed_value; ok js

-- `list(value)`
unfoldable pub list_of : Json → Result Code Json
unfolding iterate items
list_of v = do js ← iterate v; ok (array (items js))

-- a key and a value; a key that is not a text is not modelled, and taken as malformed
abbrev pub as_pair : List Json → Result Code (String × Json)
as_pair (text k ∷ v ∷ []) = ok (k, v)
as_pair _ = err malformed_value

unfoldable pub add_pairs : List Json → Fields → Result Code Fields
unfolding iterate
add_pairs [] fs = ok fs
add_pairs (p ∷ ps) fs = do
  js ← iterate p
  pair ← as_pair js
  add_pairs ps (set_field pair.0 pair.1 fs)

-- `dict(value)`
unfoldable pub dict_of : Json → Result Code Fields
unfolding add_pairs
dict_of (object fs) = ok fs
dict_of v = do ps ← iterate v; add_pairs ps end

-- a value that is a dictionary
abbrev pub fields_of : Json → Result Code Fields
fields_of (object fs) = ok fs
fields_of _ = err malformed_value
