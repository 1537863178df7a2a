-- ===== src/Evidence/Wire.antt =====
-- The wire dictionaries of rintel/evidence_authority/model.py: the `to_wire` and `to_dict` methods,
-- and the digest of an envelope.
use Prim.Native.String.{◌++◌ as text_append}
use rintel_core.Prelude.{String, [], ◌∷◌}
use rintel_core.Prelude.Json.{
  Json, null, boolean, integer, real, text, array, object, texts, dict, or_null,
}
use rintel_core.Evidence.Envelope.{
  Span, truth_text, resolution_text, coverage_text, modality_text, ClaimPayload, AnnotationKind,
  as_is_note, interpretation, to_be_intent, risk_note, review_decision, AnnotationPayload, claim,
  annotation, Payload, EvidenceEnvelope, CanonicalStateRef, Confidence,
}

-- What the program takes of Python's libraries: `json.dumps` with sorted keys, with and without
-- spaces behind the separators, the SHA-256 of a text in hexadecimal digits, the decimal form of a
-- float, and `str` of a value that is no text.
pub record Codec : Type 0 where
  pub dumps : Json → String
  pub dumps_spaced : Json → String
  pub sha256_hex : String → String
  pub float_text : Confidence → String
  pub str_of : Json → String

abbrev pub span_json : Span → Json
span_json s = object (
    dict (
      ("file", or_null text s.file)
      ∷ ("start_line", or_null integer s.start_line)
      ∷ ("start_column", or_null integer s.start_column)
      ∷ ("end_line", or_null integer s.end_line)
      ∷ ("end_column", or_null integer s.end_column)
      ∷ ("span_kind", or_null text s.span_kind)
      ∷ ("precision", or_null text s.precision)
      ∷ []))

abbrev kind_text : AnnotationKind → String
kind_text as_is_note = "AS_IS_NOTE"
kind_text interpretation = "INTERPRETATION"
kind_text to_be_intent = "TO_BE_INTENT"
kind_text risk_note = "RISK_NOTE"
kind_text review_decision = "REVIEW_DECISION"

unfoldable pub state_to_dict : CanonicalStateRef → Json
state_to_dict s = object (
    dict (
      ("revision_id", text s.revision_id)
      ∷ ("state_hash", text s.state_hash)
      ∷ ("fact_refs", array (texts s.fact_refs))
      ∷ []))

unfoldable pub annotation_to_wire : AnnotationPayload → Json
annotation_to_wire a = object (
    dict (
      ("annotation_kind", text (kind_text a.kind))
      ∷ ("design_state", text a.design_state)
      ∷ ("text", text a.body)
      ∷ ("source", text a.source)
      ∷ ("metadata", object a.metadata)
      ∷ []))

module _ (codec : Codec) where
  open codec use {dumps, sha256_hex, float_text}

  unfoldable pub claim_to_wire : ClaimPayload → Json
  claim_to_wire c = object (
      dict (
        ("claim_id", text c.claim_id)
        ∷ ("subject", text c.subject)
        ∷ ("predicate", text c.predicate)
        ∷ ("object", c.object_value)
        ∷ ("source_span", or_null span_json c.source_span)
        ∷ ("truth_class", text (truth_text c.truth_class))
        ∷ ("resolution", text (resolution_text c.resolution))
        ∷ ("coverage", text (coverage_text c.coverage))
        ∷ ("execution_modality", text (modality_text c.execution_modality))
        ∷ ("revision_input", text c.revision_input)
        ∷ ("object_is_identity", boolean c.object_is_identity)
        ∷ (
          "confidence_if_applicable",
          or_null (λ x. real (float_text x)) c.confidence_if_applicable,
        )
        ∷ ("witness", object c.witness)
        ∷ []))

  abbrev claim_part : Payload → Json
  claim_part (claim c) = claim_to_wire c
  claim_part (annotation a) = null

  abbrev annotation_part : Payload → Json
  annotation_part (claim c) = null
  annotation_part (annotation a) = annotation_to_wire a

  unfoldable pub to_wire : EvidenceEnvelope → Json
  unfolding claim_to_wire annotation_to_wire
  to_wire e = object (
      dict (
        ("lane_id", text e.lane_id)
        ∷ ("producer", text e.producer)
        ∷ ("producer_version", text e.producer_version)
        ∷ ("scope", array (texts e.scope))
        ∷ ("provenance", object e.provenance)
        ∷ ("limitations", array (texts e.limitations))
        ∷ ("claim", claim_part e.payload)
        ∷ ("annotation", annotation_part e.payload)
        ∷ []))

  -- `EvidenceEnvelope.digest`, by `_stable_digest`
  unfoldable pub digest : EvidenceEnvelope → String
  digest e = text_append "sha256:" (sha256_hex (dumps (to_wire e)))
