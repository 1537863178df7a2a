-- ===== src/Prelude/Dict.antt =====
-- Dictionaries with text keys, as association lists.
use rintel_core.Prelude.{
  ◌≡◌, ◌≢◌, String, Option, none, some, List, [], ◌∷◌, ◌==◌, string_eq, eq_iff, if◌then◌else◌,
  arith, Bool-cases, inl, inr,
}

module _ {V : Type 0} where
  unfoldable pub lookup : String → List (String × V) → Option V
  lookup key [] = none
  lookup key ((first, value) ∷ rest) = if first == key then some value else lookup key rest

  -- `d[key] = value`
  unfoldable pub insert : String → V → List (String × V) → List (String × V)
  insert key value [] = (key, value) ∷ []
  insert key value ((first, old) ∷ rest) =
      let others = insert key value rest in
      if key == first then (first, value) ∷ rest else (first, old) ∷ others

  pub lookup-insert_self :
      (key : String) (value : V) (entries : List (String × V))
      → lookup key (insert key value entries) ≡ some value
  unfolding lookup insert
  lookup-insert_self key value [] = ground (arith, eq_iff key key)
  lookup-insert_self key value ((first, old) ∷ rest) =
      ground (arith, eq_iff key first, eq_iff first key, lookup-insert_self key value rest)

  pub lookup-insert_ne :
      (key other : String) (value : V) (entries : List (String × V))
      → key ≢ other
      → lookup other (insert key value entries) ≡ lookup other entries
  unfolding lookup insert
  lookup-insert_ne key other value [] apart = ground (arith, eq_iff key other, apart)
  lookup-insert_ne key other value ((first, old) ∷ rest) apart =
      let inner = lookup-insert_ne key other value rest apart in
      ground (arith, eq_iff key first, eq_iff first other, eq_iff key other, inner, apart)

  pub lookup-insert :
      (key other : String) (value : V) (entries : List (String × V))
      → lookup other (insert key value entries)
        ≡ (if key == other then some value else lookup other entries)
  lookup-insert key other value entries = elim (Bool-cases (key == other)) [
    | inl q ↦
        let one : key ≡ other = ground (arith, q, eq_iff key other) in
        rw (q, ← one) (lookup-insert_self key value entries)
    | inr q ↦
        rw q
          (lookup-insert_ne key other value entries (λ e. ground (arith, q, e, eq_iff key other)))
  ]
