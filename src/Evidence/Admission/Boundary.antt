-- ===== src/Evidence/Admission/Boundary.antt =====
-- What crosses the canonical admission boundary, and that nothing else does.
use rintel_core.Prelude.{
  ◌≡◌, ◌≢◌, ◌⊎◌, inl, inr, true, false, ◌&&◌, In, contains, contains-In, In-contains, ok,
  Result-cases, fnmatchcase, ◌==◌, string_eq, eq_iff, arith,
}
use rintel_core.Evidence.Contract.{must, truth_eq, resolution_eq, modality_eq, modality_beq_iff}
use rintel_core.Evidence.Registry.{
  canonical_candidate, class_eq, class_beq_iff, LaneDefinition, require,
}
use rintel_core.Evidence.Envelope.{
  ClaimPayload, Payload, claim, annotation, EvidenceEnvelope, CanonicalStateRef,
}
use rintel_core.Evidence.Wire.{Codec}
use rintel_core.Evidence.Candidate.{EvidenceCandidate, check_candidate}
use rintel_core.Evidence.Admission.{
  Engine, CanonicalAdmission, lane_of, is_runtime_lane, validate_claim, is_canonical_lane,
  candidate_of, issue, admit,
}

-- The policy: who may make a claim canonical, and with which dimensions.
pub record MayAdmit (engine : Engine) (e : EvidenceEnvelope) (lane : LaneDefinition)
    (c : ClaimPayload) : Type 0 where
  pub registered : require engine.registry e.lane_id ≡ ok lane
  pub producer_known : fnmatchcase e.producer lane.producer ≡ true
  pub is_candidate_lane : lane.authority_class ≡ canonical_candidate
  pub ingests : lane.canonical_ingestion ≡ true
  pub has_claim : e.payload ≡ claim c
  pub truth_allowed : In c.truth_class lane.truth_classes_may_propose
  pub resolution_allowed : In c.resolution lane.resolution_capabilities
  pub runtime_not_must :
      (lane.lane_id ≡ "runtime_trace") ⊎ (lane.lane_id ≡ "runtime_data")
      → c.execution_modality ≢ must

lane_of_passes :
    (engine : Engine) (e : EvidenceEnvelope) (lane : LaneDefinition)
    → lane_of engine e ≡ ok lane
    → (require engine.registry e.lane_id ≡ ok lane) × (fnmatchcase e.producer lane.producer ≡ true)
unfolding lane_of
lane_of_passes engine e lane h = elim (Result-cases (require engine.registry e.lane_id)) [
  | inl (l, r) ↦ ground (arith, r)
  | inr (x, r) ↦ ground (arith, r)
]

validate_claim_passes :
    (p : Payload) (lane : LaneDefinition) (c : ClaimPayload)
    → validate_claim p lane ≡ ok c
    → (p ≡ claim c)
      × (contains c.truth_class lane.truth_classes_may_propose ≡ true)
      × (contains c.resolution lane.resolution_capabilities ≡ true)
      × (((lane.lane_id ≡ "runtime_trace") ⊎ (lane.lane_id ≡ "runtime_data"))
          → c.execution_modality ≢ must)
unfolding validate_claim
validate_claim_passes (claim x) lane c h = ground (
  arith,
  eq_iff lane.lane_id "runtime_trace",
  eq_iff lane.lane_id "runtime_data",
  modality_beq_iff x.execution_modality must,
)
validate_claim_passes (annotation a) lane c h = cc

is_canonical_lane_passes :
    (lane : LaneDefinition)
    → is_canonical_lane lane ≡ true
    → (lane.authority_class ≡ canonical_candidate) × (lane.canonical_ingestion ≡ true)
is_canonical_lane_passes lane h =
    ground (arith, class_beq_iff lane.authority_class canonical_candidate)

check_candidate-eq : (x y : EvidenceCandidate) → check_candidate x ≡ ok y → y ≡ x
unfolding check_candidate
check_candidate-eq x y h = ground arith

module _ (codec : Codec) (engine : Engine) (e : EvidenceEnvelope) (state : CanonicalStateRef)
    (a : CanonicalAdmission) (h : admit codec engine e state ≡ ok a) where
  admitted_lane : (lane : LaneDefinition) × (lane_of engine e ≡ ok lane)
  unfolding admit
  admitted_lane = elim (Result-cases (lane_of engine e)) [
    | inl found ↦ found
    | inr (x, l) ↦ absurd (ground (arith, l))
  ]

  admitted_claim :
      (lane : LaneDefinition)
      → lane_of engine e ≡ ok lane
      → (c : ClaimPayload) × (validate_claim e.payload lane ≡ ok c)
  unfolding admit
  admitted_claim lane l = elim (Result-cases (validate_claim e.payload lane)) [
    | inl found ↦ found
    | inr (x, v) ↦ absurd (ground (arith, l, v))
  ]

  admitted_parts :
      (lane : LaneDefinition)
      → lane_of engine e ≡ ok lane
      → (c : ClaimPayload) → validate_claim e.payload lane ≡ ok c
      → (is_canonical_lane lane ≡ true) × (a ≡ issue codec engine e state lane (candidate_of e c))
  unfolding admit
  admitted_parts lane l c v = elim (Result-cases (check_candidate (candidate_of e c))) [
    | inl (x, w) ↦
        let same = check_candidate-eq (candidate_of e c) x w in ground (arith, l, v, w, same)
    | inr (x, w) ↦ absurd (ground (arith, l, v, w))
  ]

  -- An envelope is admitted only as the policy allows. The receipt holds the candidate that its
  -- claim describes and the versions of the engine, and the state before is the state after.
  pub admit_sound :
      (lane : LaneDefinition) × (c : ClaimPayload) × MayAdmit engine e lane c
      × (a ≡ issue codec engine e state lane (candidate_of e c))
  admit_sound =
      let (lane, l) = admitted_lane in
      let (c, v) = admitted_claim lane l in
      let (k, same) = admitted_parts lane l c v in
      let (reg, prod) = lane_of_passes engine e lane l in
      let (p, t, r, m) = validate_claim_passes e.payload lane c v in
      let (cls, ing) = is_canonical_lane_passes lane k in
      (
        lane,
        c,
        record {
          registered = reg;
          producer_known = prod;
          is_candidate_lane = cls;
          ingests = ing;
          has_claim = p;
          truth_allowed = contains-In c.truth_class lane.truth_classes_may_propose t;
          resolution_allowed = contains-In c.resolution lane.resolution_capabilities r;
          runtime_not_must = m;
        },
        same,
      )

lane_of_may :
    (engine : Engine) (e : EvidenceEnvelope) (lane : LaneDefinition)
    → require engine.registry e.lane_id ≡ ok lane
    → fnmatchcase e.producer lane.producer ≡ true
    → lane_of engine e ≡ ok lane
unfolding lane_of
lane_of_may engine e lane r p = ground (arith, r, p)

validate_claim_may :
    (p : Payload) (lane : LaneDefinition) (c : ClaimPayload)
    → p ≡ claim c
    → contains c.truth_class lane.truth_classes_may_propose ≡ true
    → contains c.resolution lane.resolution_capabilities ≡ true
    → (is_runtime_lane lane && c.execution_modality == must) ≡ false
    → validate_claim p lane ≡ ok c
unfolding validate_claim
validate_claim_may p lane c h t r m = rw (h, t, r, m)

runtime_test :
    (lane : LaneDefinition) (c : ClaimPayload)
    → ((lane.lane_id ≡ "runtime_trace") ⊎ (lane.lane_id ≡ "runtime_data")
        → c.execution_modality ≢ must)
    → (is_runtime_lane lane && c.execution_modality == must) ≡ false
runtime_test lane c h = ground (
  arith,
  eq_iff lane.lane_id "runtime_trace",
  eq_iff lane.lane_id "runtime_data",
  modality_beq_iff c.execution_modality must,
)

module _ (codec : Codec) (engine : Engine) (e : EvidenceEnvelope) (state : CanonicalStateRef) where
  -- Whatever the policy allows is admitted, if its candidate is well formed.
  pub admit_complete :
      (lane : LaneDefinition) (c : ClaimPayload)
      → MayAdmit engine e lane c
      → check_candidate (candidate_of e c) ≡ ok (candidate_of e c)
      → admit codec engine e state ≡ ok (issue codec engine e state lane (candidate_of e c))
  unfolding admit
  admit_complete lane c m w =
      let l = lane_of_may engine e lane m.registered m.producer_known in
      let t = In-contains c.truth_class lane.truth_classes_may_propose m.truth_allowed in
      let r = In-contains c.resolution lane.resolution_capabilities m.resolution_allowed in
      let v =
        validate_claim_may e.payload lane c m.has_claim t r
          (runtime_test lane c m.runtime_not_must) in
      ground (arith, l, v, w, m.is_candidate_lane, m.ingests)
