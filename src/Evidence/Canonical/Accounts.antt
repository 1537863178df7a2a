-- ===== src/Evidence/Canonical/Accounts.antt =====
-- Reconciliation (rintel/provider_arch/canonical.py) accounts for every candidate.
use mathlib.Core.List.Perm
use mathlib.Core.List.{Perm, append_assoc, map-append, perm_append_comm}
use rintel_core.Prelude.{
  ◌≡◌, refl, sym, ap, ◌∙◌, subst, inl, inr, List, [], ◌∷◌, ◌++◌, map, All, ok, err, ok-inj,
  ok-subst, after, Result-cases, Bool-cases,
}
use rintel_core.Evidence.Contract.{resolution_eq}
use rintel_core.Prelude.Groups.{Groups, group_by, members, group_by-perm}
use rintel_core.Prelude.Groups.Places.{members-perm}
use rintel_core.Prelude.Sort.{sort_by-perm}
use rintel_core.Evidence.Wire.{Codec}
use rintel_core.Evidence.Candidate.{EvidenceCandidate}
use rintel_core.Evidence.Canonical.Identity.{
  IdentityError, IdentityResolver, Item, Fate, accepted, unresolved, denied, fate,
}
use rintel_core.Evidence.Canonical.Fates.{
  IsResolved, IsUnresolved, fate-accepted, fate-IsUnresolved,
}
use rintel_core.Evidence.Canonical.Reconcile.{
  ProviderClaim, CanonicalEvidence, ProviderConflict, CanonicalizationResult, Slot, slot_of,
  claim_of, disagree, decide_all, add_fate, resolve_all, slots, slot_text, reconcile_raw_candidates,
  slot_eq,
}

abbrev pub evidence_claims : List CanonicalEvidence → List ProviderClaim
evidence_claims [] = []
evidence_claims (e ∷ es) = e.provider_claims ++ evidence_claims es

abbrev pub conflict_claims : List ProviderConflict → List ProviderClaim
conflict_claims [] = []
conflict_claims (c ∷ cs) = c.provider_claims ++ conflict_claims cs

-- the claims of a result, in canonical facts and in conflicts
abbrev pub all_claims : CanonicalizationResult → List ProviderClaim
all_claims r = evidence_claims r.evidence ++ conflict_claims r.conflicts

-- a middle part moved to the front
perm_front : {A : Type 0} (xs ys zs : List A) → Perm (xs ++ (ys ++ zs)) (ys ++ (xs ++ zs))
perm_front xs ys zs =
    rw (← append_assoc) (rw (← append_assoc) (Perm.append_right zs (perm_append_comm xs ys)))

-- A claim tells what its item says.
pub record Tells (i : Item) (c : ProviderClaim) : Type 0 where
  pub same_provider : c.provider_id ≡ i.candidate.provider_id
  pub same_fact : c.provider_fact_id ≡ i.candidate.provider_fact_id
  pub same_object : c.object_value ≡ i.object_value
  pub same_truth : c.truth_class ≡ i.candidate.truth_class
  pub same_coverage : c.coverage ≡ i.candidate.coverage
  pub same_resolution : c.resolution ≡ i.candidate.resolution
  pub same_span : c.source_span ≡ i.candidate.source_span
  pub same_witness : c.witness ≡ i.candidate.witness

tells : (i : Item) → Tells i (claim_of i)
tells i = record {
  same_provider = refl;
  same_fact = refl;
  same_object = refl;
  same_truth = refl;
  same_coverage = refl;
  same_resolution = refl;
  same_span = refl;
  same_witness = refl;
}

module _ (codec : Codec) where
  decide_all-perm :
      (gs : Groups Slot Item)
      → Perm
          (evidence_claims (decide_all codec gs).0 ++ conflict_claims (decide_all codec gs).1)
          (map claim_of (members gs))
  unfolding decide_all
  decide_all-perm [] = Perm.refl []
  decide_all-perm ((s, []) ∷ gs) = decide_all-perm gs
  decide_all-perm ((s, i ∷ is) ∷ gs) = elim (Bool-cases (disagree codec (i ∷ is))) [
    | inl q ↦
        rw (q, map-append)
          (Perm.trans
            (perm_front (evidence_claims (decide_all codec gs).0) (map claim_of (i ∷ is))
              (conflict_claims (decide_all codec gs).1))
            (Perm.append_left (map claim_of (i ∷ is)) (decide_all-perm gs)))
    | inr q ↦
        rw (q, map-append)
          (rw append_assoc (Perm.append_left (map claim_of (i ∷ is)) (decide_all-perm gs)))
  ]

  slots-perm : (is : List Item) → Perm (members (slots codec is)) is
  slots-perm is =
      Perm.trans (members-perm (sort_by-perm (slot_text codec) (group_by slot_of is)))
        (group_by-perm slot_of is)

  module _ (resolver : IdentityResolver) where
    -- the first loop parts the candidates into those that are resolved and those that are not
    pub record Sorts (cs : List EvidenceCandidate) (is : List Item) (us : List EvidenceCandidate)
        : Type 0 where
      pub kept : Perm (map (λ (i : Item). i.candidate) is ++ us) cs
      pub resolved : All (IsResolved codec resolver) is
      pub unresolved_ones : All (IsUnresolved codec resolver) us

    add_fate-Sorts :
        (c : EvidenceCandidate) (f : Fate) (cs : List EvidenceCandidate) (js : List Item)
        (vs : List EvidenceCandidate) (is : List Item) (us : List EvidenceCandidate)
        → fate codec resolver c ≡ f
        → Sorts cs js vs
        → add_fate codec resolver c f (ok (js, vs)) ≡ ok (is, us)
        → Sorts (c ∷ cs) is us
    add_fate-Sorts c (accepted i) cs js vs is us f s h =
        let (same, found) = fate-accepted codec resolver c i f in
        ok-subst (λ p. Sorts (c ∷ cs) p.0 p.1) h
          (record {
            kept =
                subst (λ d. Perm (d ∷ (map (λ (i : Item). i.candidate) js ++ vs)) (c ∷ cs))
                  (sym same) (Perm.append_left (c ∷ []) s.kept);
            resolved = (found, s.resolved);
            unresolved_ones = s.unresolved_ones;
          })
    add_fate-Sorts c unresolved cs js vs is us f s h =
        ok-subst (λ p. Sorts (c ∷ cs) p.0 p.1) h
          (record {
            kept =
                Perm.trans (perm_front (map (λ (i : Item). i.candidate) js) (c ∷ []) vs)
                  (Perm.append_left (c ∷ []) s.kept);
            resolved = s.resolved;
            unresolved_ones = (fate-IsUnresolved codec resolver c f, s.unresolved_ones);
          })
    add_fate-Sorts c denied cs js vs is us f s h = absurd cc

    add_fate-err :
        (c : EvidenceCandidate) (f : Fate) (x : IdentityError)
        (p : List Item × List EvidenceCandidate)
        → add_fate codec resolver c f (err x) ≡ ok p
        → ⊥
    add_fate-err c (accepted i) x p h = cc
    add_fate-err c unresolved x p h = cc
    add_fate-err c denied x p h = cc

    resolve_all-Sorts :
        (cs : List EvidenceCandidate) (is : List Item) (us : List EvidenceCandidate)
        → resolve_all codec resolver cs ≡ ok (is, us)
        → Sorts cs is us
    unfolding resolve_all
    resolve_all-Sorts [] is us h =
        ok-subst (λ p. Sorts [] p.0 p.1) h
          (record { kept = Perm.refl []; resolved = tt; unresolved_ones = tt })
    resolve_all-Sorts (c ∷ cs) is us h = elim (Result-cases (resolve_all codec resolver cs)) [
      | inl ((js, vs), e) ↦
          add_fate-Sorts c (fate codec resolver c) cs js vs is us refl
            (resolve_all-Sorts cs js vs e)
            (sym (ap (add_fate codec resolver c (fate codec resolver c)) e) ∙ h)
      | inr (x, e) ↦ absurd (
          add_fate-err c (fate codec resolver c) x (is, us)
            (sym (ap (add_fate codec resolver c (fate codec resolver c)) e) ∙ h))
    ]

    -- Every given candidate is accounted for as often as it was given. It stays unresolved, where the
    -- resolver finds no subject or no object, or an identity that is empty as the object; or it is
    -- resolved to an item, whose subject and object the resolver has found, an identity that is not null
    -- where the target is exact. The claims of the items, and no others, stand in the canonical facts and
    -- the conflicts, each once. A claim has the resolved object, and the provider, the provider's fact,
    -- the truth class, the coverage, the resolution, the place and the witness of its candidate.
    pub reconcile-accounts :
        (cs : List EvidenceCandidate) (r : CanonicalizationResult)
        → reconcile_raw_candidates codec resolver cs ≡ ok r
        → (is : List Item) × Sorts cs is r.unresolved
          × Perm (all_claims r) (map claim_of is)
          × ((i : Item) → Tells i (claim_of i))
    unfolding reconcile_raw_candidates
    reconcile-accounts cs r h =
        let ((is, us), e, g) = after (resolve_all codec resolver cs) _ h in
        let same : us ≡ r.unresolved = ap (λ q. q.unresolved) (ok-inj g) in
        let ev = ap (λ q. q.evidence) (ok-inj g) in
        let co = ap (λ q. q.conflicts) (ok-inj g) in
        (
          is,
          subst (Sorts cs is) same (resolve_all-Sorts cs is us e),
          rw (← ev, ← co)
              (Perm.trans (decide_all-perm (slots codec is)) (Perm.map claim_of (slots-perm is))),
          tells,
        )
