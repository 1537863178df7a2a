-- ===== src/Lifecycle/Values/Conversions.antt =====
-- The values of a caller that the conversions of rintel/design_lifecycle/service.py accept.
use rintel_core.Prelude.{
  Bool, true, false, ◌&&◌, Option, none, some, List, [], ◌∷◌, String, map, all, ok, ◌≡◌, refl,
  arith, inl, inr, Bool-cases,
}
use rintel_core.Prelude.Json.{
  Json, null, boolean, integer, negative, real, text, array, object, nil, Fields, end, get_field,
  item_list, keys,
}
use rintel_core.Lifecycle.Models.{DesignChange}
use rintel_core.Lifecycle.Values.{or_else, characters, is_hashable, list_of, set_of, dict_of}
use rintel_core.Lifecycle.Comparison.{convert_expected, convert_values, is_truthy_at}
use rintel_core.Lifecycle.Commands.{normalize_claim, normalize_all}

-- a missing value, a list, a dictionary or a text
abbrev pub is_iterable : Option Json → Bool
is_iterable none = true
is_iterable (some (array js)) = true
is_iterable (some (object fs)) = true
is_iterable (some (text s)) = true
is_iterable (some j) = false

-- a missing value or a dictionary
abbrev pub is_dictionary : Option Json → Bool
is_dictionary none = true
is_dictionary (some (object fs)) = true
is_dictionary (some j) = false

-- a missing value, a dictionary, a text, or a list without a list or a dictionary in it
abbrev pub is_collection : Option Json → Bool
is_collection none = true
is_collection (some (array js)) = all is_hashable (item_list js)
is_collection (some (object fs)) = true
is_collection (some (text s)) = true
is_collection (some j) = false

-- the types that a claim of a plan has
abbrev pub is_well_formed : Fields → Bool
is_well_formed claim =
    is_iterable (get_field "support" claim) && is_dictionary (get_field "expected_evidence" claim)

-- the types that a comparison needs of the design and the scope
abbrev pub is_comparable : DesignChange → Bool
is_comparable c =
    all (λ claim. is_dictionary (get_field "expected_evidence" claim))
      c.design_revision.expected_changes
    && (is_collection (get_field "files" c.scope) && is_collection (get_field "symbols" c.scope))

list_of-ok :
    (o : Option Json) → is_iterable o ≡ true → (j : Json) × (list_of (or_else (array nil) o) ≡ ok j)
unfolding list_of
list_of-ok none h = (_, refl)
list_of-ok (some (array js)) h = (_, refl)
list_of-ok (some (object fs)) h = (_, refl)
list_of-ok (some (text s)) h = (_, refl)
list_of-ok (some null) h = absurd cc
list_of-ok (some (boolean b)) h = absurd cc
list_of-ok (some (integer n)) h = absurd cc
list_of-ok (some (negative n)) h = absurd cc
list_of-ok (some (real r)) h = absurd cc

dict_of-ok :
    (o : Option Json)
    → is_dictionary o ≡ true
    → (fs : Fields) × (dict_of (or_else (object end) o) ≡ ok fs)
unfolding dict_of
dict_of-ok none h = (_, refl)
dict_of-ok (some (object fs)) h = (_, refl)
dict_of-ok (some (array js)) h = absurd cc
dict_of-ok (some (text s)) h = absurd cc
dict_of-ok (some null) h = absurd cc
dict_of-ok (some (boolean b)) h = absurd cc
dict_of-ok (some (integer n)) h = absurd cc
dict_of-ok (some (negative n)) h = absurd cc
dict_of-ok (some (real r)) h = absurd cc

texts_hashable : (ss : List String) → all is_hashable (map text ss) ≡ true
texts_hashable [] = refl
texts_hashable (s ∷ ss) = texts_hashable ss

characters_hashable : (s : String) → all is_hashable (characters s) ≡ true
characters_hashable String.[] = refl
characters_hashable (String.◌∷◌ c s) = characters_hashable s

set_of-ok :
    (o : Option Json)
    → is_collection o ≡ true
    → (js : List Json) × (set_of (or_else (array nil) o) ≡ ok js)
unfolding set_of
set_of-ok none h = (_, refl)
set_of-ok (some (array js)) h = rw h (_, refl)
set_of-ok (some (object fs)) h = rw (texts_hashable (keys fs)) (_, refl)
set_of-ok (some (text s)) h = rw (characters_hashable s) (_, refl)
set_of-ok (some null) h = absurd cc
set_of-ok (some (boolean b)) h = absurd cc
set_of-ok (some (integer n)) h = absurd cc
set_of-ok (some (negative n)) h = absurd cc
set_of-ok (some (real r)) h = absurd cc

normalize_claim-ok :
    (c : DesignChange) (claim : Fields)
    → is_well_formed claim ≡ true
    → (fs : Fields) × (normalize_claim c claim ≡ ok fs)
unfolding normalize_claim
normalize_claim-ok c claim h =
    let (j, p) = list_of-ok (get_field "support" claim) (ground (arith, h)) in
    let (fs, q) = dict_of-ok (get_field "expected_evidence" claim) (ground (arith, h)) in
    rw (p, q) (_, refl)

-- A plan whose claims are well formed is normalized.
pub normalize_all-ok :
    (c : DesignChange) (claims : List Fields)
    → all is_well_formed claims ≡ true
    → (ds : List Fields) × (normalize_all c claims ≡ ok ds)
unfolding normalize_all
normalize_all-ok c [] h = (_, refl)
normalize_all-ok c (claim ∷ claims) h =
    let (fs, p) = normalize_claim-ok c claim (ground (arith, h)) in
    let (ds, q) = normalize_all-ok c claims (ground (arith, h)) in rw (p, q) (_, refl)

convert_expected-ok :
    (claims : List Fields)
    → all (λ claim. is_dictionary (get_field "expected_evidence" claim)) claims ≡ true
    → convert_expected claims ≡ ok tt
unfolding convert_expected
convert_expected-ok [] h = refl
convert_expected-ok (claim ∷ claims) h =
    let (fs, p) = dict_of-ok (get_field "expected_evidence" claim) (ground (arith, h)) in
    let q = convert_expected-ok claims (ground (arith, h)) in
    elim (Bool-cases (is_truthy_at (get_field "expected_evidence" claim))) [
      | inl t ↦ rw (t, p) q
      | inr t ↦ rw t q
    ]

-- The conversions of a comparison go through for values of these types.
pub convert_values-ok : (c : DesignChange) → is_comparable c ≡ true → convert_values c ≡ ok tt
unfolding convert_values
convert_values-ok c h =
    let p = convert_expected-ok c.design_revision.expected_changes (ground (arith, h)) in
    let (fs, q) = set_of-ok (get_field "files" c.scope) (ground (arith, h)) in
    let (ss, r) = set_of-ok (get_field "symbols" c.scope) (ground (arith, h)) in rw (p, q, r) refl
