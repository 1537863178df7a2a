-- ===== src/Evidence/Alignment.antt =====
-- rintel/evidence_authority/engine.py, `align`: what envelopes about one place say together. The
-- message of a result is left out.
pub mod Escalation
use rintel_core.Prelude.{
  ℕ, String, Bool, true, false, ◌&&◌, ◌||◌, not, Option, none, some, List, [], ◌∷◌, ◌++◌, map, any,
  contains, length, ltb, Result, ok, err, ◌>>=◌, ◌==◌, nat_eq, string_eq, if◌then◌else◌, Eq, ◌≡◌,
  ◌↔◌, arith,
}
use rintel_core.Prelude.Dict.{lookup, insert}
use rintel_core.Prelude.Groups.{Groups, group_by}
use rintel_core.Evidence.Contract.{
  TruthClass, Coverage, TargetResolution, ExecutionModality, truth_eq, coverage_eq, resolution_eq,
  modality_eq,
}
use rintel_core.Evidence.Registry.{
  AuthorityClass, canonical_candidate, reference_evidence, class_eq, LaneDefinition, AuthorityError,
}
use rintel_core.Evidence.Envelope.{
  Span, ClaimPayload, Payload, claim, annotation, EvidenceEnvelope, CanonicalStateRef,
}
use rintel_core.Evidence.Wire.{Codec, digest}
use rintel_core.Evidence.Admission.{Engine, CanonicalAdmission, lane_of, admit}
use rintel_core.Evidence.Canonical.Reconcile.{Slot, slot_eq}

pub data AlignmentKind : Type 0 where
  canonical_admission corroboration provider_conflict reference_disagreement : AlignmentKind
  canonical_reference_discrepancy unknown_preserved : AlignmentKind

-- the value of `evidence_authority`
pub data Authority : Type 0 where
  of_class : AuthorityClass → Authority
  mixed : Authority

-- a claim in its envelope: `align` groups those envelopes that hold one
pub record Stated : Type 0 where
  pub envelope : EvidenceEnvelope
  pub stated_claim : ClaimPayload

pub record Support : Type 0 where
  pub lane_id : String
  pub producer : String
  pub producer_version : String
  pub envelope_digest : String
  pub claim_id : String

pub record Dimensions : Type 0 where
  pub truth_class : TruthClass
  pub resolution : TargetResolution
  pub coverage : Coverage
  pub execution_modality : ExecutionModality

pub record AlignmentResult : Type 0 where
  pub kind : AlignmentKind
  pub registry_version : String
  pub rule_version : String
  pub canonical_state_before : CanonicalStateRef
  pub canonical_state_after : CanonicalStateRef
  pub evidence_authority : Authority
  pub dimensions : Option Dimensions
  pub supporting_evidence : List Support

abbrev pub dimensions_of : ClaimPayload → Dimensions
dimensions_of c = record {
  truth_class = c.truth_class;
  resolution = c.resolution;
  coverage = c.coverage;
  execution_modality = c.execution_modality;
}

-- `_variant`
pub record Stance : Type 0 where
  pub object_text : String
  pub dimensions : Dimensions

abbrev dimensions_beq : Dimensions → Dimensions → Bool
dimensions_beq a b =
    a.truth_class == b.truth_class
    && a.resolution == b.resolution
    && a.coverage == b.coverage
    && a.execution_modality == b.execution_modality

pub dimensions_beq_iff : (a b : Dimensions) → (dimensions_beq a b ≡ true) ↔ (a ≡ b)
dimensions_beq_iff a b = ground (
  arith,
  truth_eq.same_iff a.truth_class b.truth_class,
  resolution_eq.same_iff a.resolution b.resolution,
  coverage_eq.same_iff a.coverage b.coverage,
  modality_eq.same_iff a.execution_modality b.execution_modality,
)

instance abbrev pub dimensions_eq : Eq Dimensions
dimensions_eq = record { same = dimensions_beq; same_iff = dimensions_beq_iff }

abbrev stance_beq : Stance → Stance → Bool
stance_beq a b = a.object_text == b.object_text && a.dimensions == b.dimensions

pub stance_beq_iff : (a b : Stance) → (stance_beq a b ≡ true) ↔ (a ≡ b)
stance_beq_iff a b = ground (
  arith,
  string_eq.same_iff a.object_text b.object_text,
  dimensions_eq.same_iff a.dimensions b.dimensions,
)

instance abbrev pub stance_eq : Eq Stance
stance_eq = record { same = stance_beq; same_iff = stance_beq_iff }

abbrev span_field : {A : Type 0} → (Span → Option A) → Option Span → Option A
span_field f none = none
span_field f (some s) = f s

-- `_anchor`
abbrev pub anchor : Stated → Slot
anchor s = record {
  subject = s.stated_claim.subject;
  predicate = s.stated_claim.predicate;
  file = span_field (λ s. s.file) s.stated_claim.source_span;
  start_line = span_field (λ s. s.start_line) s.stated_claim.source_span;
  span_kind = span_field (λ s. s.span_kind) s.stated_claim.source_span;
  revision = s.stated_claim.revision_input;
}

abbrev pub stated : List EvidenceEnvelope → List Stated
stated [] = []
stated (e ∷ es) =
    let rest = stated es in
    elim e.payload [
      | claim c ↦ record { envelope = e; stated_claim = c } ∷ rest
      | annotation a ↦ rest
    ]

abbrev pub is_unknown : Stated → Bool
is_unknown s = s.stated_claim.resolution == TargetResolution.unknown

-- how many different stances there are: `len(set(...))`
abbrev pub different : List Stance → List Stance
different [] = []
different (v ∷ vs) = let rest = different vs in if contains v vs then rest else v ∷ rest

abbrev pub is_empty : List Stated → Bool
is_empty [] = true
is_empty (s ∷ ss) = false

abbrev pub first_dimensions : List Stated → Option Dimensions
first_dimensions [] = none
first_dimensions (s ∷ ss) = some (dimensions_of s.stated_claim)

module _ (codec : Codec) (engine : Engine) (state : CanonicalStateRef) where
  abbrev pub support : Stated → Support
  support s = record {
    lane_id = s.envelope.lane_id;
    producer = s.envelope.producer;
    producer_version = s.envelope.producer_version;
    envelope_digest = digest codec s.envelope;
    claim_id = s.stated_claim.claim_id;
  }

  abbrev pub stance : Stated → Stance
  stance s = record {
    object_text = codec.dumps s.stated_claim.object_value;
    dimensions = dimensions_of s.stated_claim;
  }

  -- `_result`
  abbrev pub result : AlignmentKind → Authority → List Stated → Option Dimensions → AlignmentResult
  result k authority ss dims = record {
    kind = k;
    registry_version = engine.registry.version;
    rule_version = engine.rule_version;
    canonical_state_before = state;
    canonical_state_after = state;
    evidence_authority = authority;
    dimensions = dims;
    supporting_evidence = map support ss;
  }

  -- the lane of each envelope, by its digest; an envelope that no lane fits raises
  unfoldable pub lanes_of :
      List EvidenceEnvelope → Result AuthorityError (List (String × LaneDefinition))
  lanes_of [] = ok []
  lanes_of (e ∷ es) = do
    lane ← lane_of engine e
    rest ← lanes_of es
    ok ((digest codec e, lane) ∷ rest)

  abbrev pub class_is : AuthorityClass → Option LaneDefinition → Bool
  class_is k none = false
  class_is k (some lane) = lane.authority_class == k

  -- equal digests have equal lanes, unless the hash collides
  unfoldable pub of_lane_class :
      List (String × LaneDefinition) → AuthorityClass → List Stated → List Stated
  of_lane_class lanes k [] = []
  of_lane_class lanes k (s ∷ ss) =
      let rest = of_lane_class lanes k ss in
      if class_is k (lookup (digest codec s.envelope) lanes) then s ∷ rest else rest

  -- each canonical claim has to pass `admit`
  unfoldable pub admissions : List Stated → Result AuthorityError (List AlignmentResult)
  admissions [] = ok []
  admissions (s ∷ ss) = do
    a ← admit codec engine s.envelope state
    rest ← admissions ss
    ok (
        result canonical_admission (of_class canonical_candidate) (s ∷ [])
          (some (dimensions_of s.stated_claim))
        ∷ rest)

  unfoldable pub among_canonical : List Stated → List AlignmentResult
  among_canonical ss =
      if ltb 1 (length ss)
      then (if length (different (map stance ss)) == 1
          then result corroboration (of_class canonical_candidate) ss (first_dimensions ss) ∷ []
          else result provider_conflict (of_class canonical_candidate) ss none ∷ [])
      else []

  unfoldable pub among_references : List Stated → List AlignmentResult
  among_references ss =
      if ltb 1 (length ss) && ltb 1 (length (different (map stance ss)))
      then result reference_disagreement (of_class reference_evidence) ss none ∷ []
      else []

  unfoldable pub between : List Stated → List Stated → List AlignmentResult
  between canonical references =
      if is_empty canonical || is_empty references
      then []
      else if any is_unknown canonical
      then result unknown_preserved mixed references (first_dimensions canonical) ∷ []
      else if any (λ v. contains v (map stance references)) (map stance canonical)
      then result corroboration mixed (canonical ++ references) (first_dimensions canonical) ∷ []
      else result canonical_reference_discrepancy mixed (canonical ++ references) none ∷ []

  -- the body of the loop over the groups
  unfoldable pub align_group :
      List (String × LaneDefinition) → List Stated → Result AuthorityError (List AlignmentResult)
  align_group lanes group =
      let canonical = of_lane_class lanes canonical_candidate group in
      let references = of_lane_class lanes reference_evidence group in
      do
        admitted ← admissions canonical
        ok (
            admitted
            ++ (among_canonical canonical
                ++ (among_references references ++ between canonical references)))

  unfoldable pub align_groups :
      List (String × LaneDefinition)
      → Groups Slot Stated
      → Result AuthorityError (List AlignmentResult)
  align_groups lanes [] = ok []
  align_groups lanes ((k, group) ∷ gs) = do
    here ← align_group lanes group
    rest ← align_groups lanes gs
    ok (here ++ rest)

  unfoldable pub align : List EvidenceEnvelope → Result AuthorityError (List AlignmentResult)
  align es = do lanes ← lanes_of es; align_groups lanes (group_by anchor (stated es))
