-- ===== src/Evidence/Canonical/Agreement.antt =====
-- A canonical fact is what all its claims agree on, and a conflict is a disagreement: no claim wins.
use rintel_core.Prelude.{
  ◌≡◌, ◌≢◌, refl, sym, ap, ◌∙◌, inl, inr, true, false, List, [], ◌∷◌, map, All, In, arith, ok,
  Result-cases, Bool-cases, nat_eq,
}
use rintel_core.Prelude.Json.{or_null}
use rintel_core.Prelude.Groups.{Groups, group_by, IsGroup, group_by-IsGroup}
use rintel_core.Prelude.Groups.Places.{
  In-map, All-In, group_by-one, group_by-two, IsWithin, group_by-IsWithin,
}
use rintel_core.Prelude.Sort.{sort_by-All}
use rintel_core.Evidence.Wire.{Codec, span_json}
use rintel_core.Evidence.Candidate.{EvidenceCandidate}
use rintel_core.Evidence.Canonical.Identity.{IdentityResolver, Item}
use rintel_core.Evidence.Canonical.Reconcile.{
  ProviderClaim, CanonicalEvidence, ProviderConflict, CanonicalizationResult, Slot, slot_of,
  claim_of, Variant, variant_of, variant_eq, slot_eq, disagree, decide_all, resolve_all, slots,
  slot_text, reconcile_raw_candidates, evidence_of, conflict_of,
}

module _ (codec : Codec) where
  open codec use {dumps}

  -- A claim says what the fact says: the object and the place by their texts, and the dimensions.
  pub record Supports (e : CanonicalEvidence) (c : ProviderClaim) : Type 0 where
    pub same_object : dumps c.object_value ≡ dumps e.object_value
    pub same_truth : c.truth_class ≡ e.truth_class
    pub same_coverage : c.coverage ≡ e.coverage
    pub same_resolution : c.resolution ≡ e.resolution
    pub same_span :
        dumps (or_null span_json c.source_span) ≡ dumps (or_null span_json e.source_span)

  -- Two resolved candidates for the slot of a conflict that differ, both kept among its claims.
  pub record Disagrees (is : List Item) (c : ProviderConflict) : Type 0 where
    pub left : Item
    pub right : Item
    pub left_given : In left is
    pub right_given : In right is
    pub left_slot : slot_of left ≡ slot_of right
    pub subject_kept : left.subject ≡ c.subject
    pub relation_kept : left.candidate.predicate ≡ c.relation
    pub differ : variant_of codec left ≢ variant_of codec right
    pub left_kept : In (claim_of left) c.provider_claims
    pub right_kept : In (claim_of right) c.provider_claims

  one_variant :
      (is : List Item) (x y : Item)
      → disagree codec is ≡ false
      → In x is
      → In y is
      → variant_of codec x ≡ variant_of codec y
  unfolding disagree
  one_variant is x y h mx my = group_by-one (variant_of codec) is x y (ground (arith, h)) mx my

  Supports-variant :
      (s : Slot) (i j : Item) (is : List Item)
      → variant_of codec j ≡ variant_of codec i
      → Supports (evidence_of codec s i is) (claim_of j)
  Supports-variant s i j is h = record {
    same_object = ap (λ (v : Variant). v.object_text) h;
    same_truth = ap (λ (v : Variant). v.truth_class) h;
    same_coverage = ap (λ (v : Variant). v.coverage) h;
    same_resolution = ap (λ (v : Variant). v.resolution) h;
    same_span = ap (λ (v : Variant). v.span_text) h;
  }

  All-map :
      {A B : Type 0} (P : B → Type 0) (f : A → B) (xs : List A)
      → ((a : A) → In a xs → P (f a))
      → All P (map f xs)
  All-map P f [] h = tt
  All-map P f (x ∷ xs) h = (h x (inl refl), All-map P f xs (λ a m. h a (inr m)))

  -- what is shown of each canonical fact
  abbrev pub IsAgreed : CanonicalEvidence → Type 0
  IsAgreed e = All (Supports e) e.provider_claims × (e.provider_claims ≢ [])

  decide_all-IsAgreed : (gs : Groups Slot Item) → All IsAgreed (decide_all codec gs).0
  unfolding decide_all
  decide_all-IsAgreed [] = tt
  decide_all-IsAgreed ((s, []) ∷ gs) = decide_all-IsAgreed gs
  decide_all-IsAgreed ((s, i ∷ is) ∷ gs) = elim (Bool-cases (disagree codec (i ∷ is))) [
    | inl q ↦ rw q (decide_all-IsAgreed gs)
    | inr q ↦ rw q (
      (
        All-map (Supports (evidence_of codec s i (i ∷ is))) claim_of (i ∷ is)
            (λ j m. Supports-variant s i j (i ∷ is) (one_variant (i ∷ is) j i q m (inl refl))),
        λ e. cc,
      ),
      decide_all-IsAgreed gs,
    )
  ]

  Disagrees-group :
      (all : List Item) (s : Slot) (i : Item) (is : List Item)
      → disagree codec (i ∷ is) ≡ true
      → IsGroup slot_of (s, i ∷ is)
      → IsWithin all (s, i ∷ is)
      → Disagrees all (conflict_of codec s (i ∷ is))
  unfolding disagree
  Disagrees-group all s i is q g w =
      let (x, y, mx, my, n) = group_by-two (variant_of codec) i is (λ h. ground (arith, h)) in
      let sx = All-In (λ v. slot_of v ≡ s) (i ∷ is) g.0 mx in
      let sy = All-In (λ v. slot_of v ≡ s) (i ∷ is) g.0 my in
      record {
        left = x;
        right = y;
        left_given = All-In (λ v. In v all) (i ∷ is) w mx;
        right_given = All-In (λ v. In v all) (i ∷ is) w my;
        left_slot = sx ∙ sym sy;
        subject_kept = ap (λ (t : Slot). t.subject) sx;
        relation_kept = ap (λ (t : Slot). t.predicate) sx;
        differ = n;
        left_kept = In-map claim_of x (i ∷ is) mx;
        right_kept = In-map claim_of y (i ∷ is) my;
      }

  decide_all-Disagrees :
      (all : List Item) (gs : Groups Slot Item)
      → All (IsGroup slot_of) gs
      → All (IsWithin all) gs
      → All (Disagrees all) (decide_all codec gs).1
  unfolding decide_all
  decide_all-Disagrees all [] h w = tt
  decide_all-Disagrees all ((s, []) ∷ gs) h w = decide_all-Disagrees all gs h.1 w.1
  decide_all-Disagrees all ((s, i ∷ is) ∷ gs) h w = elim (Bool-cases (disagree codec (i ∷ is))) [
    | inl q ↦ rw q (Disagrees-group all s i is q h.0 w.0, decide_all-Disagrees all gs h.1 w.1)
    | inr q ↦ rw q (decide_all-Disagrees all gs h.1 w.1)
  ]

  module _ (resolver : IdentityResolver) where
    -- All claims of a canonical fact have the text of its object and of its place, its truth class, its coverage and
    -- its resolution, and there is a claim.
    pub reconcile-IsAgreed :
        (cs : List EvidenceCandidate) (r : CanonicalizationResult)
        → reconcile_raw_candidates codec resolver cs ≡ ok r
        → All IsAgreed r.evidence
    unfolding reconcile_raw_candidates
    reconcile-IsAgreed cs r h = elim (Result-cases (resolve_all codec resolver cs)) [
      | inl ((is, us), e) ↦
          let ev : (decide_all codec (slots codec is)).0 ≡ r.evidence = ground (arith, e) in
          rw (← ev) (decide_all-IsAgreed (slots codec is))
      | inr (x, e) ↦ absurd (ground (arith, e))
    ]

    -- For each conflict two resolved candidates were given for its slot whose object, place or
    -- dimensions differ, and the claims of both are kept in it.
    pub reconcile-Disagrees :
        (cs : List EvidenceCandidate) (r : CanonicalizationResult)
        → reconcile_raw_candidates codec resolver cs ≡ ok r
        → (is : List Item) × (resolve_all codec resolver cs ≡ ok (is, r.unresolved))
          × All (Disagrees is) r.conflicts
    unfolding reconcile_raw_candidates
    reconcile-Disagrees cs r h = elim (Result-cases (resolve_all codec resolver cs)) [
      | inl ((is, us), e) ↦
          let same : us ≡ r.unresolved = ground (arith, e) in
          let co : (decide_all codec (slots codec is)).1 ≡ r.conflicts = ground (arith, e) in
          let groups = group_by slot_of is in
          (
            is,
            rw (← same) e,
            rw (← co) (
                decide_all-Disagrees is (slots codec is)
                  (sort_by-All (slot_text codec) (IsGroup slot_of) groups
                    (group_by-IsGroup slot_of is))
                  (sort_by-All (slot_text codec) (IsWithin is) groups
                    (group_by-IsWithin slot_of is))),
          )
      | inr (x, e) ↦ absurd (ground (arith, e))
    ]
