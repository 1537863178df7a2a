-- ===== src/Evidence/Query.antt =====
-- rintel/evidence_authority/query.py. The engine is a parameter, where the source takes the default
-- one. A segment holds the claim whose fields the source copies.
pub mod Status
use rintel_core.Prelude.{
  is_nil, String, Bool, true, false, ◌&&◌, ◌||◌, not, Option, none, some, List, [], ◌∷◌, any,
  Result, ok, err, ◌>>=◌, ◌==◌, string_eq, if◌then◌else◌,
}
use rintel_core.Evidence.Contract.{
  TruthClass, inferred, heuristic, TargetResolution, truth_eq, resolution_eq,
}
use rintel_core.Evidence.Registry.{
  AuthorityClass, canonical_candidate, reference_evidence, class_eq, LaneDefinition, AuthorityError,
  require,
}
use rintel_core.Evidence.Envelope.{
  ClaimPayload, Payload, AnnotationKind, claim, annotation, EvidenceEnvelope, CanonicalStateRef,
}
use rintel_core.Evidence.Wire.{Codec}
use rintel_core.Evidence.Admission.{Engine}
use rintel_core.Evidence.Alignment.{AlignmentResult, align}
use rintel_core.Evidence.Bridge.{CrossLanguageBridge}

pub data AnswerStatus : Type 0 where
  known_canonically supported_by_reference suggested_inferred unknown : AnswerStatus

pub record Segment : Type 0 where
  pub lane_id : String
  pub producer : String
  pub producer_version : String
  pub evidence_authority : AuthorityClass
  pub stated_claim : Option ClaimPayload
  pub annotation_kind : Option AnnotationKind

pub record QueryAuthorityResult : Type 0 where
  pub answer_status : AnswerStatus
  pub canonical_resolution : Option TargetResolution
  pub registry_version : String
  pub rule_version : String
  pub segments : List Segment
  pub alignment_results : List AlignmentResult
  pub supporting_reference : List Segment
  pub bridges : List CrossLanguageBridge
  pub full_chain_canonical : Bool
  pub semantic_meaning : Option String
  pub authoritative_change_impact : Option Bool

abbrev pub is_unresolved : ClaimPayload → Bool
is_unresolved c = c.resolution == TargetResolution.unknown

abbrev pub is_guessed : ClaimPayload → Bool
is_guessed c = c.truth_class == inferred || c.truth_class == heuristic

abbrev pub is_annotated : EvidenceEnvelope → Bool
is_annotated e = elim e.payload [ claim c ↦ false | annotation a ↦ true ]

-- the branches that choose `status`
unfoldable pub status_of : List ClaimPayload → List ClaimPayload → Bool → AnswerStatus
status_of canonical references annotated =
    if any is_unresolved canonical
    then unknown
    else if not (is_nil canonical)
    then (if any is_guessed canonical then suggested_inferred else known_canonically)
    else if not (is_nil references)
    then supported_by_reference
    else if annotated
    then suggested_inferred
    else unknown

abbrev is_impact : EvidenceEnvelope → Bool
is_impact e = elim e.payload [
  | claim c ↦ e.lane_id == "ripwire_reference" && c.predicate == "IMPACT_REACHABILITY"
  | annotation a ↦ false
]

abbrev first_resolution : List ClaimPayload → Option TargetResolution
first_resolution [] = none
first_resolution (c ∷ cs) = some c.resolution

abbrev references_in : List Segment → List Segment
references_in [] = []
references_in (s ∷ ss) =
    let rest = references_in ss in
    if s.evidence_authority == reference_evidence then s ∷ rest else rest

-- `_segment`
unfoldable pub segment : Engine → EvidenceEnvelope → Result AuthorityError Segment
segment engine e = do
  lane ← require engine.registry e.lane_id
  ok (record {
    lane_id = e.lane_id;
    producer = e.producer;
    producer_version = e.producer_version;
    evidence_authority = lane.authority_class;
    stated_claim = elim e.payload [ claim c ↦ some c | annotation a ↦ none ];
    annotation_kind = elim e.payload [ claim c ↦ none | annotation a ↦ some a.kind ];
  })

unfoldable pub segments : Engine → List EvidenceEnvelope → Result AuthorityError (List Segment)
segments engine [] = ok []
segments engine (e ∷ es) = do s ← segment engine e; rest ← segments engine es; ok (s ∷ rest)

-- a claim is kept where its lane is of the class
abbrev pub keep_claim :
    AuthorityClass → LaneDefinition → Payload → List ClaimPayload → List ClaimPayload
keep_claim k lane (claim c) rest = if lane.authority_class == k then c ∷ rest else rest
keep_claim k lane (annotation a) rest = rest

-- `[item for item in items if require(item.lane_id).authority_class is k and item.claim is not None]`
unfoldable pub claims_in :
    Engine → AuthorityClass → List EvidenceEnvelope → Result AuthorityError (List ClaimPayload)
claims_in engine k [] = ok []
claims_in engine k (e ∷ es) = do
  lane ← require engine.registry e.lane_id
  rest ← claims_in engine k es
  ok (keep_claim k lane e.payload rest)

unfoldable pub classify_evidence :
    Codec
    → Engine
    → List EvidenceEnvelope
    → CanonicalStateRef
    → List CrossLanguageBridge
    → Result AuthorityError QueryAuthorityResult
classify_evidence codec engine es state bridges = do
  ss ← segments engine es
  canonical ← claims_in engine canonical_candidate es
  references ← claims_in engine reference_evidence es
  alignment ← align codec engine state es
  let annotated = any is_annotated es
  let impact = any is_impact es
  ok (record {
    answer_status = status_of canonical references annotated;
    canonical_resolution = first_resolution canonical;
    registry_version = engine.registry.version;
    rule_version = engine.rule_version;
    segments = ss;
    alignment_results = alignment;
    supporting_reference = references_in ss;
    bridges = bridges;
    full_chain_canonical =
        not (is_nil canonical) && is_nil references && not annotated && is_nil bridges;
    semantic_meaning = if impact then some "TRANSITIVE_REACHABILITY_FLOOR" else none;
    authoritative_change_impact = if impact then some false else none;
  })
