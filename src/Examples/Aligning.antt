-- ===== src/Examples/Aligning.antt =====
-- The alignment of rintel/evidence_authority/engine.py, and the query and the bridge beside it, at an
-- envelope.
use rintel_core.Prelude.{◌≡◌, ◌≢◌, refl, true, false, some, none, List, [], ◌∷◌, All, In, ok}
use rintel_core.Prelude.Dict.{lookup}
use rintel_core.Prelude.{fnmatchcase}
use rintel_core.Prelude.Groups.{group_by, group_from, add_to}
use rintel_core.Prelude.Json.{dict, texts, Fields, field, end, text, keys, get_field}
use rintel_core.Evidence.Bridge.{
  CrossLanguageBridge, runtime_observed_call, bridge_kind, required_provenance, has_value,
  validate_bridge,
}
use rintel_core.Evidence.Bridge.Basis.{validate_bridge-ok}
use rintel_core.Evidence.Query.{
  Segment, QueryAuthorityResult, known_canonically, claims_in, segment, segments, status_of,
  classify_evidence,
}
use rintel_core.Evidence.Query.Status.{IsFirm, States, classify_evidence-known}
use rintel_core.Evidence.Registry.{require, find_lane}
use rintel_core.Evidence.Wire.{digest, to_wire, claim_to_wire}
use rintel_core.Evidence.Admission.{lane_of, admit, validate_claim}
use rintel_core.Evidence.Candidate.{check_candidate}
use rintel_core.Evidence.Alignment.{
  align_groups, align_group, admissions, of_lane_class, among_canonical, among_references,
}
use rintel_core.Evidence.Contract.{exact}
use rintel_core.Evidence.Registry.{canonical_candidate, reference_evidence}
use rintel_core.Evidence.Envelope.{ClaimPayload, EvidenceEnvelope}
use rintel_core.Evidence.Alignment.{
  Stated, AlignmentResult, canonical_admission, of_class, result, first_dimensions, stated,
  lanes_of, align, between,
}
use rintel_core.Evidence.Alignment.Escalation.{IsGrounded, align-IsGrounded}
use rintel_core.Examples.Samples.{
  sample_codec, sample_engine, sample_state, sample_claim, sample_envelope,
}

abbrev given : List EvidenceEnvelope
given = sample_envelope ∷ []

abbrev reference : Stated
reference = record { envelope = sample_envelope; stated_claim = sample_claim }

abbrev results : List AlignmentResult
results =
    result sample_codec sample_engine sample_state canonical_admission
      (of_class canonical_candidate) (reference ∷ []) (first_dimensions (reference ∷ []))
    ∷ []

aligned : align sample_codec sample_engine sample_state given ≡ ok results
unfolding align lanes_of lane_of require fnmatchcase align_groups group_by align_group admissions
    of_lane_class lookup digest to_wire admit validate_claim check_candidate among_canonical
    among_references between find_lane claim_to_wire add_to group_from dict texts
aligned = refl

abbrev answered : Segment
answered = record {
  lane_id = "clang_provider";
  producer = "rintel-clang";
  producer_version = "1";
  evidence_authority = canonical_candidate;
  stated_claim = some sample_claim;
  annotation_kind = none;
}

abbrev answer : QueryAuthorityResult
answer = record {
  answer_status = known_canonically;
  canonical_resolution = some exact;
  registry_version = sample_engine.registry.version;
  rule_version = sample_engine.rule_version;
  segments = answered ∷ [];
  alignment_results = results;
  supporting_reference = [];
  bridges = [];
  full_chain_canonical = true;
  semantic_meaning = none;
  authoritative_change_impact = none;
}

segmented : segments sample_engine given ≡ ok (answered ∷ [])
unfolding segments segment require find_lane
segmented = refl

canonical_claims : claims_in sample_engine canonical_candidate given ≡ ok (sample_claim ∷ [])
unfolding claims_in require find_lane
canonical_claims = refl

reference_claims : claims_in sample_engine reference_evidence given ≡ ok []
unfolding claims_in require find_lane
reference_claims = refl

classified : classify_evidence sample_codec sample_engine given sample_state [] ≡ ok answer
unfolding classify_evidence status_of
classified = rw (segmented, canonical_claims, reference_claims, aligned) refl

classify_evidence-known_example :
    ((e : EvidenceEnvelope) × (c : ClaimPayload) × In e given
      × States sample_engine canonical_candidate e c)
    × ((e : EvidenceEnvelope) (c : ClaimPayload)
        → In e given
        → States sample_engine canonical_candidate e c
        → IsFirm c)
classify_evidence-known_example =
    classify_evidence-known sample_codec sample_engine given sample_state [] answer classified refl

abbrev provenance : Fields
provenance =
    field "run_id" (text "7")
      (field "call_event" (text "e") (field "source_artifact" (text "a") end))

abbrev bridge : CrossLanguageBridge
bridge = record {
  source_ref = "f";
  target_ref = "g";
  basis = runtime_observed_call;
  provenance = provenance;
  relationship = "ABI_BRIDGE";
  identity_merged = false;
}

bridged : validate_bridge "f" "g" "RUNTIME_OBSERVED_CALL" provenance ≡ ok bridge
unfolding validate_bridge bridge_kind keys get_field
bridged = refl

validate_bridge-ok_example :
    (bridge_kind "RUNTIME_OBSERVED_CALL" ≡ some bridge.basis)
    × (bridge.source_ref ≢ "")
    × (bridge.target_ref ≢ "")
    × (bridge.source_ref ≢ bridge.target_ref)
    × All (λ k. has_value provenance k ≡ true) (required_provenance bridge.basis)
    × (bridge.source_ref ≡ bridge.source_ref)
    × (bridge.target_ref ≡ bridge.target_ref)
    × (bridge.provenance ≡ provenance)
    × (bridge.identity_merged ≡ false)
validate_bridge-ok_example =
    validate_bridge-ok "f" "g" "RUNTIME_OBSERVED_CALL" provenance bridge bridged

align-IsGrounded_example :
    All (IsGrounded sample_codec sample_engine sample_state (stated given)) results
align-IsGrounded_example =
    align-IsGrounded sample_codec sample_engine sample_state given results aligned
