-- ===== src/Evidence/Support.antt =====
-- `issue_fact_support` of rintel/evidence_authority/engine.py, and the receipt that support.py seals.
-- The receipt holds the claim and the envelope whose fields the source copies into it.
pub mod Identity
use Prim.Native.String.{◌++◌ as text_append}
use rintel_core.Prelude.{
  String, Bool, true, false, ◌&&◌, ◌||◌, not, Option, none, some, List, [], ◌∷◌, Result, ok, err,
  raise_if, ◌>>◌, ◌>>=◌, ◌==◌, string_eq, if◌then◌else◌,
}
use rintel_core.Prelude.Json.{Json, text, object, array, Fields, get_field, items}
use rintel_core.Evidence.Registry.{canonical_candidate, class_eq, LaneDefinition, AuthorityError}
use rintel_core.Evidence.Envelope.{ClaimPayload, Payload, claim, annotation, EvidenceEnvelope}
use rintel_core.Evidence.Wire.{Codec, digest}
use rintel_core.Evidence.Admission.{Engine, CanonicalAdmission, lane_of}

-- what the caller says of the fact
pub record FactSupport : Type 0 where
  pub canonical_revision : String
  pub canonical_fact_id : String
  pub canonical_fact_kind : String
  pub canonical_fact_type : String
  pub owner_path : String
  pub build_context_id : String
  pub source_digest : Option String
  pub source_ids : Option (String × String)
  pub reattest_source_receipt_id : Option String

pub record CanonicalSupportReceipt : Type 0 where
  pub support_receipt_id : String
  pub fact : FactSupport
  pub admission_id : String
  pub evidence : ClaimPayload
  pub admitted_envelope : EvidenceEnvelope
  pub registry_version : String
  pub rule_version : String
  pub reattest_rule_version : Option String

pub data SupportError : Type 0 where
  admission_mismatch noncanonical_lane fact_claim_required node_mismatch edge_mismatch :
      SupportError
  lane_error : AuthorityError → SupportError

abbrev pub the_lane : Result AuthorityError LaneDefinition → Result SupportError LaneDefinition
the_lane (ok lane) = ok lane
the_lane (err e) = err (lane_error e)

abbrev pub the_claim : Payload → Result SupportError ClaimPayload
the_claim (claim c) = ok c
the_claim (annotation a) = err fact_claim_required

abbrev pub is_text_of : String → Option Json → Bool
is_text_of s (some (text r)) = r == s
is_text_of s _ = false

-- `isinstance(object, dict)` and its kind
abbrev pub has_kind : String → Json → Bool
has_kind kind (object fs) = is_text_of kind (get_field "kind" fs)
has_kind kind _ = false

unfoldable pub is_node : FactSupport → ClaimPayload → Bool
is_node f c =
    c.subject == f.canonical_fact_id
    && c.predicate == "NODE"
    && has_kind f.canonical_fact_kind c.object_value

-- the identity of an edge
abbrev pub edge_id : String → String → String → String
edge_id kind source target =
    text_append "edge:"
      (text_append kind (text_append ":" (text_append source (text_append ":" target))))

unfoldable pub is_edge : FactSupport → ClaimPayload → Bool
is_edge f c = elim f.source_ids [
  | none ↦ false
  | some (source, target) ↦
      c.subject == source
      && c.predicate == f.canonical_fact_kind
      && is_text_of target (some c.object_value)
      && f.canonical_fact_id == edge_id f.canonical_fact_kind source target
]

-- the two branches on the type of the fact
abbrev pub check_identity : FactSupport → ClaimPayload → Result SupportError (Unit {0})
check_identity f c =
    if f.canonical_fact_type == "node"
    then raise_if (not (is_node f c)) node_mismatch
    else raise_if (not (is_edge f c)) edge_mismatch

module _ (codec : Codec) (engine : Engine) where
  open codec use {dumps, sha256_hex}

  abbrev is_current : CanonicalAdmission → EvidenceEnvelope → Bool
  is_current a e =
      a.envelope_digest == digest codec e
      && a.registry_version == engine.registry.version
      && a.rule_version == engine.rule_version

  abbrev pub receipt_of :
      CanonicalAdmission → EvidenceEnvelope → FactSupport → ClaimPayload → CanonicalSupportReceipt
  receipt_of a e f c = record {
    support_receipt_id = text_append "support:" (
        sha256_hex (
          dumps (
            array (
              items (
                text f.canonical_revision
                ∷ text f.canonical_fact_id
                ∷ text a.envelope_digest
                ∷ [])))));
    fact = f;
    admission_id = a.envelope_digest;
    evidence = c;
    admitted_envelope = e;
    registry_version = a.registry_version;
    rule_version = a.rule_version;
    reattest_rule_version = elim f.reattest_source_receipt_id [
      | none ↦ none
      | some r ↦ if r == "" then none else some "semantic-digest-identity-reattest/1"
    ];
  }

  unfoldable pub issue_fact_support :
      CanonicalAdmission
      → EvidenceEnvelope
      → FactSupport
      → Result SupportError CanonicalSupportReceipt
  issue_fact_support a e f = do
    raise_if (not (is_current a e)) admission_mismatch
    lane ← the_lane (lane_of engine e)
    raise_if (not (lane.authority_class == canonical_candidate)) noncanonical_lane
    c ← the_claim e.payload
    raise_if (not (f.canonical_fact_type == "node" || f.canonical_fact_type == "edge"))
        fact_claim_required
    check_identity f c
    ok (receipt_of a e f c)
