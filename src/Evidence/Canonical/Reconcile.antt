-- ===== src/Evidence/Canonical/Reconcile.antt =====
-- rintel/provider_arch/canonical.py, the slots of `_reconcile_raw_candidates`: each slot of subject,
-- predicate, place and revision ends as one canonical fact or as one conflict.
use Prim.Native.String.{◌++◌ as text_append}
use rintel_core.Prelude.{
  ℕ, String, Bool, true, false, ◌&&◌, Option, none, some, List, [], ◌∷◌, map, length, Result, ok,
  err, ◌>>=◌, ◌==◌, nat_eq, string_eq, option_eq, option_beq_iff, if◌then◌else◌, Eq, ◌≡◌, ◌↔◌,
  arith,
}
use rintel_core.Prelude.Json.{Json, integer, text, array, object, Fields, items, dict, or_null}
use rintel_core.Prelude.Groups.{Groups, group_by}
use rintel_core.Prelude.Sort.{sort_by}
use rintel_core.Evidence.Contract.{
  TruthClass, Coverage, TargetResolution, ExecutionModality, truth_eq, coverage_eq, resolution_eq,
  modality_eq,
}
use rintel_core.Evidence.Envelope.{Span}
use rintel_core.Evidence.Wire.{Codec, span_json}
use rintel_core.Evidence.Candidate.{EvidenceCandidate}
use rintel_core.Evidence.Canonical.Identity.{
  IdentityError, identity_denied, IdentityResolver, Item, Fate, accepted, unresolved, denied, fate,
}

pub record ProviderClaim : Type 0 where
  pub provider_id : String
  pub provider_fact_id : String
  pub object_value : Json
  pub truth_class : TruthClass
  pub coverage : Coverage
  pub resolution : TargetResolution
  pub source_span : Option Span
  pub witness : Fields

pub record CanonicalEvidence : Type 0 where
  pub evidence_id : String
  pub subject : String
  pub predicate : String
  pub object_value : Json
  pub source_span : Option Span
  pub truth_class : TruthClass
  pub coverage : Coverage
  pub resolution : TargetResolution
  pub execution_modality : ExecutionModality
  pub revision_input : String
  pub provider_claims : List ProviderClaim

pub record ProviderConflict : Type 0 where
  pub subject : String
  pub relation : String
  pub provider_claims : List ProviderClaim

pub record CanonicalizationResult : Type 0 where
  pub evidence : List CanonicalEvidence
  pub conflicts : List ProviderConflict
  pub unresolved : List EvidenceCandidate

-- the key of a slot; `_anchor` is the file, the first line and the kind of the span
pub record Slot : Type 0 where
  pub subject : String
  pub predicate : String
  pub file : Option String
  pub start_line : Option ℕ
  pub span_kind : Option String
  pub revision : String

abbrev slot_beq : Slot → Slot → Bool
slot_beq a b =
    a.subject == b.subject
    && a.predicate == b.predicate
    && a.file == b.file
    && a.start_line == b.start_line
    && a.span_kind == b.span_kind
    && a.revision == b.revision

pub slot_beq_iff : (a b : Slot) → (slot_beq a b ≡ true) ↔ (a ≡ b)
slot_beq_iff a b = ground (
  arith,
  string_eq.same_iff a.subject b.subject,
  string_eq.same_iff a.predicate b.predicate,
  option_beq_iff a.file b.file,
  option_beq_iff a.start_line b.start_line,
  option_beq_iff a.span_kind b.span_kind,
  string_eq.same_iff a.revision b.revision,
)

instance abbrev pub slot_eq : Eq Slot
slot_eq = record { same = slot_beq; same_iff = slot_beq_iff }

-- the key of a variant: two texts of the object and of the span, and the four dimensions
pub record Variant : Type 0 where
  pub object_text : String
  pub truth_class : TruthClass
  pub coverage : Coverage
  pub resolution : TargetResolution
  pub execution_modality : ExecutionModality
  pub span_text : String

abbrev variant_beq : Variant → Variant → Bool
variant_beq a b =
    a.object_text == b.object_text
    && a.truth_class == b.truth_class
    && a.coverage == b.coverage
    && a.resolution == b.resolution
    && a.execution_modality == b.execution_modality
    && a.span_text == b.span_text

pub variant_beq_iff : (a b : Variant) → (variant_beq a b ≡ true) ↔ (a ≡ b)
variant_beq_iff a b = ground (
  arith,
  string_eq.same_iff a.object_text b.object_text,
  truth_eq.same_iff a.truth_class b.truth_class,
  coverage_eq.same_iff a.coverage b.coverage,
  resolution_eq.same_iff a.resolution b.resolution,
  modality_eq.same_iff a.execution_modality b.execution_modality,
  string_eq.same_iff a.span_text b.span_text,
)

instance abbrev pub variant_eq : Eq Variant
variant_eq = record { same = variant_beq; same_iff = variant_beq_iff }

abbrev span_field : {A : Type 0} → (Span → Option A) → Option Span → Option A
span_field f none = none
span_field f (some s) = f s

abbrev pub slot_of : Item → Slot
slot_of i = record {
  subject = i.subject;
  predicate = i.candidate.predicate;
  file = span_field (λ s. s.file) i.candidate.source_span;
  start_line = span_field (λ s. s.start_line) i.candidate.source_span;
  span_kind = span_field (λ s. s.span_kind) i.candidate.source_span;
  revision = i.candidate.revision_input;
}

abbrev pub claim_of : Item → ProviderClaim
claim_of i = record {
  provider_id = i.candidate.provider_id;
  provider_fact_id = i.candidate.provider_fact_id;
  object_value = i.object_value;
  truth_class = i.candidate.truth_class;
  coverage = i.candidate.coverage;
  resolution = i.candidate.resolution;
  source_span = i.candidate.source_span;
  witness = i.candidate.witness;
}

module _ (codec : Codec) where
  open codec use {dumps, sha256_hex}

  abbrev pub variant_of : Item → Variant
  variant_of i = record {
    object_text = dumps i.object_value;
    truth_class = i.candidate.truth_class;
    coverage = i.candidate.coverage;
    resolution = i.candidate.resolution;
    execution_modality = i.candidate.execution_modality;
    span_text = dumps (or_null span_json i.candidate.source_span);
  }

  -- the text by which the slots are sorted
  abbrev pub slot_text : Slot × List Item → String
  slot_text (s, is) = dumps (
      array (
        items (
          text s.subject
          ∷ text s.predicate
          ∷ array (
              items (
                or_null text s.file ∷ or_null integer s.start_line ∷ or_null text s.span_kind ∷ []))
          ∷ text s.revision
          ∷ [])))

  abbrev semantic : Slot → Item → Json
  semantic s i = object (
      dict (
        ("subject", text s.subject)
        ∷ ("predicate", text s.predicate)
        ∷ ("object", i.object_value)
        ∷ ("source_span", or_null span_json i.candidate.source_span)
        ∷ ("revision_input", text s.revision)
        ∷ []))

  pub evidence_id : Slot → Item → String
  evidence_id s i = text_append "evidence:" (sha256_hex (dumps (semantic s i)))

  -- the evidence of a slot whose first claim is `i`
  abbrev pub evidence_of : Slot → Item → List Item → CanonicalEvidence
  evidence_of s i is = record {
    evidence_id = evidence_id s i;
    subject = s.subject;
    predicate = s.predicate;
    object_value = i.object_value;
    source_span = i.candidate.source_span;
    truth_class = i.candidate.truth_class;
    coverage = i.candidate.coverage;
    resolution = i.candidate.resolution;
    execution_modality = i.candidate.execution_modality;
    revision_input = s.revision;
    provider_claims = map claim_of is;
  }

  abbrev pub conflict_of : Slot → List Item → ProviderConflict
  conflict_of s is = record {
    subject = s.subject;
    relation = s.predicate;
    provider_claims = map claim_of is;
  }

  -- `len(variants) != 1`
  unfoldable pub disagree : List Item → Bool
  disagree is = if length (group_by variant_of is) == 1 then false else true

  -- the body of the second loop; no slot is empty
  unfoldable pub decide :
      Slot × List Item
      → List CanonicalEvidence × List ProviderConflict
      → List CanonicalEvidence × List ProviderConflict
  decide (s, []) (evidence, conflicts) = (evidence, conflicts)
  decide (s, i ∷ is) (evidence, conflicts) =
      if disagree (i ∷ is)
      then (evidence, conflict_of s (i ∷ is) ∷ conflicts)
      else (evidence_of s i (i ∷ is) ∷ evidence, conflicts)

  unfoldable pub decide_all : Groups Slot Item → List CanonicalEvidence × List ProviderConflict
  unfolding decide
  decide_all [] = ([], [])
  decide_all (g ∷ gs) = decide g (decide_all gs)

  abbrev pub slots : List Item → Groups Slot Item
  slots is = sort_by slot_text (group_by slot_of is)

  module _ (resolver : IdentityResolver) where
    abbrev pub add_fate :
        EvidenceCandidate
        → Fate
        → Result IdentityError (List Item × List EvidenceCandidate)
        → Result IdentityError (List Item × List EvidenceCandidate)
    add_fate c (accepted i) r = do (is, us) ← r; ok (i ∷ is, us)
    add_fate c unresolved r = do (is, us) ← r; ok (is, c ∷ us)
    add_fate c denied r = err identity_denied

    -- the first loop: the resolved candidates, and those that stay unresolved
    unfoldable pub resolve_all :
        List EvidenceCandidate → Result IdentityError (List Item × List EvidenceCandidate)
    resolve_all [] = ok ([], [])
    resolve_all (c ∷ cs) = let rest = resolve_all cs in add_fate c (fate codec resolver c) rest

    -- `_reconcile_raw_candidates`
    unfoldable pub reconcile_raw_candidates :
        List EvidenceCandidate → Result IdentityError CanonicalizationResult
    reconcile_raw_candidates cs = do
      (is, us) ← resolve_all cs
      let (evidence, conflicts) = decide_all (slots is)
      ok (record { evidence = evidence; conflicts = conflicts; unresolved = us })
