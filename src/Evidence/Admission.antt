-- ===== src/Evidence/Admission.antt =====
-- `EvidenceAuthorityEngine` of rintel/evidence_authority/engine.py, up to `admit`. A
-- `CanonicalAdmission` is issued by `admit` alone, which the seal of the source enforces.
pub mod Boundary
pub mod DefaultLanes
use rintel_core.Prelude.{
  String, Bool, ◌&&◌, ◌||◌, not, List, contains, Result, ok, err, raise_if, ◌>>◌, ◌>>=◌,
  fnmatchcase, ◌==◌, string_eq,
}
use rintel_core.Evidence.Contract.{must, truth_eq, resolution_eq, modality_eq}
use rintel_core.Evidence.Registry.{
  AuthorityClass, canonical_candidate, class_eq, LaneDefinition, LaneRegistry, AuthorityError,
  producer_not_registered, lane_not_canonical, claim_required, truth_class_forbidden,
  resolution_forbidden, runtime_must_forbidden, candidate_rejected, require,
}
use rintel_core.Evidence.Envelope.{
  ClaimPayload, Payload, claim, annotation, EvidenceEnvelope, CanonicalStateRef,
}
use rintel_core.Evidence.Wire.{Codec, digest}
use rintel_core.Evidence.Candidate.{EvidenceCandidate, CandidateError, check_candidate}

pub record Engine : Type 0 where
  pub registry : LaneRegistry
  pub rule_version : String

pub record CanonicalAdmission : Type 0 where
  pub evidence_authority : AuthorityClass
  pub registry_version : String
  pub rule_version : String
  pub envelope_digest : String
  pub canonical_state_before : CanonicalStateRef
  pub canonical_state_after : CanonicalStateRef
  pub candidate : EvidenceCandidate

unfoldable pub lane_of : Engine → EvidenceEnvelope → Result AuthorityError LaneDefinition
lane_of engine e = do
  lane ← require engine.registry e.lane_id
  raise_if (not (fnmatchcase e.producer lane.producer)) producer_not_registered
  ok lane

abbrev pub is_runtime_lane : LaneDefinition → Bool
is_runtime_lane lane = lane.lane_id == "runtime_trace" || lane.lane_id == "runtime_data"

abbrev pub claim_of : Payload → Result AuthorityError ClaimPayload
claim_of (claim c) = ok c
claim_of (annotation a) = err claim_required

unfoldable pub validate_claim : Payload → LaneDefinition → Result AuthorityError ClaimPayload
validate_claim p lane = do
  c ← claim_of p
  raise_if (not (contains c.truth_class lane.truth_classes_may_propose)) truth_class_forbidden
  raise_if (not (contains c.resolution lane.resolution_capabilities)) resolution_forbidden
  raise_if (is_runtime_lane lane && c.execution_modality == must) runtime_must_forbidden
  ok c

abbrev pub is_canonical_lane : LaneDefinition → Bool
is_canonical_lane lane = lane.authority_class == canonical_candidate && lane.canonical_ingestion

-- the candidate that `admit` makes of a claim
abbrev pub candidate_of : EvidenceEnvelope → ClaimPayload → EvidenceCandidate
candidate_of e c = record {
  provider_id = e.producer;
  provider_fact_id = c.claim_id;
  subject = c.subject;
  predicate = c.predicate;
  object_value = c.object_value;
  source_span = c.source_span;
  truth_class = c.truth_class;
  coverage = c.coverage;
  resolution = c.resolution;
  revision_input = c.revision_input;
  execution_modality = c.execution_modality;
  confidence_if_applicable = c.confidence_if_applicable;
  witness = c.witness;
  object_is_identity = c.object_is_identity;
}

abbrev pub checked :
    Result CandidateError EvidenceCandidate → Result AuthorityError EvidenceCandidate
checked (ok c) = ok c
checked (err e) = err candidate_rejected

-- the sealed receipt
abbrev pub issue :
    Codec
    → Engine
    → EvidenceEnvelope
    → CanonicalStateRef
    → LaneDefinition
    → EvidenceCandidate
    → CanonicalAdmission
issue codec engine e state lane candidate = record {
  evidence_authority = lane.authority_class;
  registry_version = engine.registry.version;
  rule_version = engine.rule_version;
  envelope_digest = digest codec e;
  canonical_state_before = state;
  canonical_state_after = state;
  candidate = candidate;
}

unfoldable pub admit :
    Codec → Engine → EvidenceEnvelope → CanonicalStateRef → Result AuthorityError CanonicalAdmission
admit codec engine e state = do
  lane ← lane_of engine e
  raise_if (not (is_canonical_lane lane)) lane_not_canonical
  c ← validate_claim e.payload lane
  candidate ← checked (check_candidate (candidate_of e c))
  ok (issue codec engine e state lane candidate)
