-- ===== src/Evidence/Support/Identity.antt =====
-- A support receipt binds an admission to the fact that its claim names.
use rintel_core.Prelude.{
  ◌≡◌, ◌⊎◌, inl, inr, String, true, ◌||◌, Option, none, some, ok, Result-cases, Option-cases, arith,
  eq_iff, ◌==◌, string_eq, ap, refl, Result, err, some-inj, ok-inj,
}
use rintel_core.Prelude.Json.{
  Json, null, boolean, integer, negative, real, text, array, object, Fields, get_field,
}
use rintel_core.Evidence.Registry.{
  canonical_candidate, class_eq, class_beq_iff, LaneDefinition, AuthorityError,
}
use rintel_core.Evidence.Envelope.{ClaimPayload, Payload, claim, annotation, EvidenceEnvelope}
use rintel_core.Evidence.Wire.{Codec, digest}
use rintel_core.Evidence.Admission.{Engine, CanonicalAdmission, lane_of}
use rintel_core.Evidence.Support.{
  FactSupport, CanonicalSupportReceipt, is_text_of, has_kind, the_lane, the_claim, check_identity,
  is_node, is_edge, edge_id, receipt_of, issue_fact_support,
}

-- an object that has the kind
pub IsOfKind : String → Json → Type 0
IsOfKind kind j = (fs : Fields) × (j ≡ object fs) × (get_field "kind" fs ≡ some (text kind))

is_text_of-text : (s : String) (o : Option Json) → is_text_of s o ≡ true → o ≡ some (text s)
is_text_of-text s (some (text r)) h = ap (λ t. some (text t)) ((eq_iff r s).0 h)
is_text_of-text s none h = absurd cc
is_text_of-text s (some null) h = absurd cc
is_text_of-text s (some (boolean b)) h = absurd cc
is_text_of-text s (some (integer n)) h = absurd cc
is_text_of-text s (some (negative n)) h = absurd cc
is_text_of-text s (some (real r)) h = absurd cc
is_text_of-text s (some (array js)) h = absurd cc
is_text_of-text s (some (object fs)) h = absurd cc

has_kind-IsOfKind : (kind : String) (j : Json) → has_kind kind j ≡ true → IsOfKind kind j
unfolding IsOfKind
has_kind-IsOfKind kind (object fs) h = (fs, refl, is_text_of-text kind (get_field "kind" fs) h)
has_kind-IsOfKind kind (text t) h = absurd cc
has_kind-IsOfKind kind null h = absurd cc
has_kind-IsOfKind kind (boolean b) h = absurd cc
has_kind-IsOfKind kind (integer n) h = absurd cc
has_kind-IsOfKind kind (negative n) h = absurd cc
has_kind-IsOfKind kind (real r) h = absurd cc
has_kind-IsOfKind kind (array js) h = absurd cc

the_lane-ok :
    (r : Result AuthorityError LaneDefinition) (lane : LaneDefinition)
    → the_lane r ≡ ok lane
    → r ≡ ok lane
the_lane-ok (ok l) lane h = ap ok (ok-inj h)
the_lane-ok (err e) lane h = absurd cc

-- The claim names the fact: as a node of its kind, or as an edge with its two ends, the second of
-- which is the object of the claim.
pub record Names (f : FactSupport) (c : ClaimPayload) : Type 0 where
  pub node_or_edge : (f.canonical_fact_type ≡ "node") ⊎ (f.canonical_fact_type ≡ "edge")
  pub as_node :
      f.canonical_fact_type ≡ "node"
      → (c.subject ≡ f.canonical_fact_id)
        × (c.predicate ≡ "NODE")
        × IsOfKind f.canonical_fact_kind c.object_value
  pub as_edge :
      f.canonical_fact_type ≡ "edge"
      → (target : String) × (f.source_ids ≡ some (c.subject, target))
        × (c.predicate ≡ f.canonical_fact_kind)
        × (c.object_value ≡ text target)
        × (f.canonical_fact_id ≡ edge_id f.canonical_fact_kind c.subject target)

payload-claim : (p : Payload) (c : ClaimPayload) → the_claim p ≡ ok c → p ≡ claim c
payload-claim (claim x) c h = ground (arith, h)
payload-claim (annotation a) c h = absurd (ground (arith, h))

edge-ids :
    (f : FactSupport) (c : ClaimPayload)
    → is_edge f c ≡ true
    → (target : String) × (f.source_ids ≡ some (c.subject, target))
      × (c.predicate ≡ f.canonical_fact_kind)
      × (c.object_value ≡ text target)
      × (f.canonical_fact_id ≡ edge_id f.canonical_fact_kind c.subject target)
unfolding is_edge
edge-ids f c h = elim (Option-cases f.source_ids) [
  | inl e ↦ absurd (ground (arith, h, e))
  | inr ((source, target), e) ↦
      let same : c.subject ≡ source = ground (arith, h, e, eq_iff c.subject source) in
      (
        target,
        rw same e,
        ground (arith, h, e, eq_iff c.predicate f.canonical_fact_kind),
        some-inj (is_text_of-text target (some c.object_value) (ground (arith, h, e))),
        rw same (
            ground (
              arith,
              h,
              e,
              eq_iff f.canonical_fact_id (edge_id f.canonical_fact_kind source target),
            )),
      )
]

node-subject :
    (f : FactSupport) (c : ClaimPayload)
    → is_node f c ≡ true
    → (c.subject ≡ f.canonical_fact_id)
      × (c.predicate ≡ "NODE")
      × IsOfKind f.canonical_fact_kind c.object_value
unfolding is_node
node-subject f c h = (
  ground (arith, h, eq_iff c.subject f.canonical_fact_id),
  ground (arith, h, eq_iff c.predicate "NODE"),
  has_kind-IsOfKind f.canonical_fact_kind c.object_value (ground (arith, h)),
)

names :
    (f : FactSupport) (c : ClaimPayload)
    → (f.canonical_fact_type == "node" || f.canonical_fact_type == "edge") ≡ true
    → check_identity f c ≡ ok tt
    → Names f c
names f c t h = record {
  node_or_edge =
      ground (arith, t, eq_iff f.canonical_fact_type "node", eq_iff f.canonical_fact_type "edge");
  as_node = λ e.
      let node : is_node f c ≡ true = ground (arith, h, e, eq_iff f.canonical_fact_type "node") in
      node-subject f c node;
  as_edge = λ e.
      let edge : is_edge f c ≡ true =
        ground (arith, h, e, eq_iff "edge" "node", eq_iff f.canonical_fact_type "node") in
      edge-ids f c edge;
}

-- A receipt is issued only for an admission of this very envelope under the current versions, whose
-- lane is canonical and whose claim names the fact: a node by its subject, the predicate NODE and an
-- object of the fact's kind, an edge by its subject, its predicate and its object. The receipt holds
-- that claim and that admission.
pub issue_fact_support-Names :
    (codec : Codec) (engine : Engine) (a : CanonicalAdmission) (e : EvidenceEnvelope)
    (f : FactSupport) (s : CanonicalSupportReceipt)
    → issue_fact_support codec engine a e f ≡ ok s
    → (c : ClaimPayload) × (e.payload ≡ claim c)
      × Names f c
      × (lane : LaneDefinition) × (lane_of engine e ≡ ok lane)
      × (lane.authority_class ≡ canonical_candidate)
      × (a.envelope_digest ≡ digest codec e)
      × (a.registry_version ≡ engine.registry.version)
      × (a.rule_version ≡ engine.rule_version)
      × (s ≡ receipt_of codec engine a e f c)
unfolding issue_fact_support
issue_fact_support-Names codec engine a e f s h =
    elim (Result-cases (the_lane (lane_of engine e))) [
      | inl (lane, l) ↦ elim (Result-cases (the_claim e.payload)) [
        | inl (c, p) ↦ elim (Result-cases (check_identity f c)) [
          | inl (u, i) ↦ (
            c,
            payload-claim e.payload c p,
            names f c (ground (arith, h, l, p)) i,
            lane,
            the_lane-ok (lane_of engine e) lane l,
            ground (arith, h, l, class_beq_iff lane.authority_class canonical_candidate),
            ground (arith, h, l, eq_iff a.envelope_digest (digest codec e)),
            ground (arith, h, l, eq_iff a.registry_version engine.registry.version),
            ground (arith, h, l, eq_iff a.rule_version engine.rule_version),
            ground (arith, h, l, p, i),
          )
          | inr (x, i) ↦ absurd (ground (arith, h, l, p, i))
        ]
        | inr (x, p) ↦ absurd (ground (arith, h, l, p))
      ]
      | inr (x, l) ↦ absurd (ground (arith, h, l))
    ]
