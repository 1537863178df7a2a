-- ===== src/Evidence/Envelope.antt =====
-- rintel/evidence_authority/model.py: claims and annotations in their envelopes, and the references
-- to canonical state.
use rintel_core.Prelude.{
  ℕ, String, Bool, ◌||◌, Option, none, some, List, Result, ok, err, raise_if, ◌>>◌, ◌>>=◌, is_blank,
  if◌then◌else◌,
}
use rintel_core.Prelude.Json.{Json, Fields}
use rintel_core.Evidence.Contract.{
  TruthClass, observed, resolved, inferred, heuristic, TargetResolution, exact, candidate_set,
  ExecutionModality, must, may, Coverage, complete, partial,
}

-- A source span holds the seven fields of the provider protocol; a missing field is `none`. Where
-- a span is optional, an empty dictionary is `none` too: the program tests it like `None`.
pub record Span : Type 0 where
  pub file : Option String
  pub start_line : Option ℕ
  pub start_column : Option ℕ
  pub end_line : Option ℕ
  pub end_column : Option ℕ
  pub span_kind : Option String
  pub precision : Option String

abbrev pub empty_span : Span
empty_span = record {
  file = none;
  start_line = none;
  start_column = none;
  end_line = none;
  end_column = none;
  span_kind = none;
  precision = none;
}

-- A confidence, as a number of billionths, with its sign.
pub data Confidence : Type 0 where
  at_least_zero below_zero : ℕ → Confidence

-- `value.value` of the four enumerations
abbrev pub truth_text : TruthClass → String
truth_text observed = "OBSERVED"
truth_text resolved = "RESOLVED"
truth_text inferred = "INFERRED"
truth_text heuristic = "HEURISTIC"

abbrev pub resolution_text : TargetResolution → String
resolution_text exact = "EXACT"
resolution_text candidate_set = "CANDIDATE_SET"
resolution_text TargetResolution.unknown = "UNKNOWN"

abbrev pub coverage_text : Coverage → String
coverage_text complete = "COMPLETE"
coverage_text partial = "PARTIAL"
coverage_text Coverage.unknown = "UNKNOWN"

abbrev pub modality_text : ExecutionModality → String
modality_text must = "MUST"
modality_text may = "MAY"
modality_text ExecutionModality.unknown = "UNKNOWN"

pub record ClaimPayload : Type 0 where
  pub claim_id : String
  pub subject : String
  pub predicate : String
  pub object_value : Json
  pub source_span : Option Span
  pub truth_class : TruthClass
  pub resolution : TargetResolution
  pub coverage : Coverage
  pub execution_modality : ExecutionModality
  pub revision_input : String
  pub object_is_identity : Bool
  pub confidence_if_applicable : Option Confidence
  pub witness : Fields

pub data AnnotationKind : Type 0 where
  as_is_note interpretation to_be_intent risk_note review_decision : AnnotationKind

pub record AnnotationPayload : Type 0 where
  pub kind : AnnotationKind
  pub design_state : String
  pub body : String
  pub source : String
  pub metadata : Fields

-- exactly one of a claim and an annotation
pub data Payload : Type 0 where
  claim : ClaimPayload → Payload
  annotation : AnnotationPayload → Payload

pub record EvidenceEnvelope : Type 0 where
  pub lane_id : String
  pub producer : String
  pub producer_version : String
  pub scope : List String
  pub provenance : Fields
  pub limitations : List String
  pub payload : Payload

pub record CanonicalStateRef : Type 0 where
  pub revision_id : String
  pub state_hash : String
  pub fact_refs : List String

pub data EnvelopeError : Type 0 where
  claim_field_required annotation_field_required envelope_field_required : EnvelopeError
  one_payload_required state_field_required : EnvelopeError

-- the `__post_init__` methods
unfoldable pub check_claim : ClaimPayload → Result EnvelopeError ClaimPayload
check_claim c =
    if is_blank c.claim_id
      || is_blank c.subject
      || is_blank c.predicate
      || is_blank c.revision_input
    then err claim_field_required
    else ok c

unfoldable pub check_annotation : AnnotationPayload → Result EnvelopeError AnnotationPayload
check_annotation a =
    if is_blank a.design_state || is_blank a.body || is_blank a.source
    then err annotation_field_required
    else ok a

abbrev one_payload : Option ClaimPayload → Option AnnotationPayload → Result EnvelopeError Payload
one_payload (some c) none = ok (claim c)
one_payload none (some a) = ok (annotation a)
one_payload _ _ = err one_payload_required

unfoldable pub new_envelope :
    String
    → String
    → String
    → List String
    → Fields
    → List String
    → Option ClaimPayload
    → Option AnnotationPayload
    → Result EnvelopeError EvidenceEnvelope
new_envelope lane_id producer producer_version scope provenance limitations c a = do
  raise_if (is_blank lane_id || is_blank producer || is_blank producer_version)
      envelope_field_required
  payload ← one_payload c a
  ok (record {
    lane_id = lane_id;
    producer = producer;
    producer_version = producer_version;
    scope = scope;
    provenance = provenance;
    limitations = limitations;
    payload = payload;
  })

unfoldable pub new_state_ref :
    String → String → List String → Result EnvelopeError CanonicalStateRef
new_state_ref revision_id state_hash fact_refs = do
  raise_if (is_blank revision_id || is_blank state_hash) state_field_required
  ok (record { revision_id = revision_id; state_hash = state_hash; fact_refs = fact_refs })
