-- ===== src/Lifecycle/Comparison/Matching.antt =====
-- What a comparison that matched says of the published graph.
use rintel_core.Prelude.{
  String, true, not, List, contains, contains-In, keep, is_nil, is_nil-In, keep-In, In-keep, In,
  In-map, map-In, Bool-cases, inl, inr, ◌⊎◌, ◌≡◌, ap, arith,
}
use rintel_core.Evidence.Wire.{Codec}
use rintel_core.Lifecycle.Models.{DesignChange, Relation, matched}
use rintel_core.Lifecycle.Context.{Context, Edge}
use rintel_core.Lifecycle.Comparison.{
  Expected, relation_eq, is_searched, actual_relations, expected_keys, base_relations, missing_keys,
  unexpected_keys, is_proved_absent, outcome_of, compare, evaluate, expected_facts,
}

module _ (x : Context) (c : DesignChange) (revision : String) (expected : List Expected) where
  nothing_left :
      (absent additional : List Relation)
      → outcome_of x c revision expected absent additional ≡ matched
      → (is_nil (keep (λ r. not (is_proved_absent x c revision expected r)) absent) ≡ true)
        × (is_nil (keep (is_proved_absent x c revision expected) absent) ≡ true)
        × (is_nil additional ≡ true)
  unfolding outcome_of
  nothing_left absent additional h = (ground (arith, h), ground (arith, h), ground (arith, h))

  none_absent :
      (absent : List Relation) (r : Relation)
      → is_nil (keep (λ r. not (is_proved_absent x c revision expected r)) absent) ≡ true
      → is_nil (keep (is_proved_absent x c revision expected) absent) ≡ true
      → In r absent
      → ⊥
  none_absent absent r h k m = elim (Bool-cases (is_proved_absent x c revision expected r)) [
    | inl q ↦ is_nil-In _ r k (keep-In (is_proved_absent x c revision expected) absent m q)
    | inr q ↦ is_nil-In _ r h (keep-In _ absent m (ap not q))
  ]

  -- a relation that the graph of the revision has
  abbrev pub Stands : Relation → Type 0
  Stands r = (e : Edge) × In e (x.edges revision) × (e.relation ≡ r)

  expected-Stands :
      outcome_of x c revision expected
          (missing_keys x c revision expected)
          (unexpected_keys x c revision expected)
        ≡ matched
      → (r : Relation) → In r (expected_keys x c revision expected)
      → Stands r
  unfolding missing_keys actual_relations
  expected-Stands h r m =
      let (a, b, d) = nothing_left _ _ h in
      elim (Bool-cases (contains r (actual_relations x c revision expected))) [
        | inl q ↦
            let (e, n, f) = In-map _ _ (contains-In r (actual_relations x c revision expected) q) in
            (e, (In-keep _ (x.edges revision) n).0, f)
        | inr q ↦ absurd (none_absent _ r a b (keep-In _ _ m (ap not q)))
      ]

  searched_expected :
      outcome_of x c revision expected
          (missing_keys x c revision expected)
          (unexpected_keys x c revision expected)
        ≡ matched
      → (e : Edge) → In e (x.edges revision)
      → is_searched x c revision expected e ≡ true
      → In e.relation (expected_keys x c revision expected)
        ⊎ In e.relation (base_relations x c revision expected)
  unfolding unexpected_keys actual_relations
  searched_expected h e m s =
      let (a, b, d) = nothing_left _ _ h in
      let there = map-In (λ (e : Edge). e.relation) _ e (keep-In _ (x.edges revision) m s) in
      elim (Bool-cases (contains e.relation (expected_keys x c revision expected))) [
        | inl q ↦ inl (contains-In e.relation _ q)
        | inr q ↦ elim (Bool-cases (contains e.relation (base_relations x c revision expected))) [
          | inl p ↦ inr (contains-In e.relation _ p)
          | inr p ↦ absurd (is_nil-In _ e.relation d (keep-In _ _ there (ground (arith, q, p))))
        ]
      ]

-- A comparison matches only if every relation that the design expects stands in the published graph
-- of the revision, and every relation of the graph with a searched kind and a searched source is
-- expected or was there in the base revision.
pub evaluate-matched :
    (codec : Codec) (x : Context) (c : DesignChange) (revision : String)
    → (evaluate codec x c revision).outcome ≡ matched
    → ((r : Relation)
        → In r
            (expected_keys x c revision (expected_facts codec c.design_revision.expected_changes))
        → Stands x c revision (expected_facts codec c.design_revision.expected_changes) r)
      × ((e : Edge)
          → In e (x.edges revision)
          → is_searched x c revision (expected_facts codec c.design_revision.expected_changes) e
            ≡ true
          → In e.relation
              (expected_keys x c revision (expected_facts codec c.design_revision.expected_changes))
            ⊎ In e.relation (
                base_relations x c revision
                  (expected_facts codec c.design_revision.expected_changes)))
unfolding evaluate compare
evaluate-matched codec x c revision h =
    let expected = expected_facts codec c.design_revision.expected_changes in
    (expected-Stands x c revision expected h, searched_expected x c revision expected h)
