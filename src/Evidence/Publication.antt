-- ===== src/Evidence/Publication.antt =====
-- rintel/provider_arch/publication.py: `CanonicalPublicationStore`. The file system is the state;
-- the stages at which it may raise are an argument, `fault`, and what a read of the staged bundle
-- gives is the argument `read_back`.
pub mod Atomic
pub mod Orphans
use Prim.Native.String.{◌++◌ as text_append}
use rintel_core.Prelude.{
  ℕ, suc, String, Bool, true, false, ◌&&◌, ◌||◌, not, Option, none, some, List, [], ◌∷◌, contains,
  codes, Result, ok, err, raise_if, ◌>>◌, ◌>>=◌, ◌==◌, nat_eq, string_eq, if◌then◌else◌,
}
use rintel_core.Prelude.Json.{Json, integer, text, array, Fields, items}
use rintel_core.Prelude.Dict.{lookup, insert}
use rintel_core.Evidence.Envelope.{CanonicalStateRef}
use rintel_core.Evidence.Wire.{Codec}
use rintel_core.Evidence.Canonical.Reconcile.{CanonicalizationResult}
use rintel_core.Evidence.Batch.{SupportReceipt, CanonicalPublicationBatch}

-- the operations of the file system in the order of `publish`
pub data Stage : Type 0 where
  make_directories make_staged write_bundle read_bundle move_bundle write_pointer move_pointer :
      Stage

abbrev stage_beq : Stage → Stage → Bool
stage_beq make_directories make_directories = true
stage_beq make_staged make_staged = true
stage_beq write_bundle write_bundle = true
stage_beq read_bundle read_bundle = true
stage_beq move_bundle move_bundle = true
stage_beq write_pointer write_pointer = true
stage_beq move_pointer move_pointer = true
stage_beq _ _ = false

abbrev pub fails : Option Stage → Stage → Bool
fails none s = false
fails (some t) s = stage_beq t s

pub record PublishedReceipt : Type 0 where
  pub receipt : SupportReceipt
  pub canonical_revision : String
  pub receipt_id : String

-- the bundle `canonical_evidence.json`
pub record Payload : Type 0 where
  pub revision : String
  pub input_revision : String
  pub provider : String
  pub provider_version : String
  pub coverage : Fields
  pub warnings : List String
  pub registry_version : String
  pub rule_version : String
  pub canonical_state_before : CanonicalStateRef
  pub canonical_state_after : CanonicalStateRef
  pub admission_digests : List String
  pub reconciliation : CanonicalizationResult
  pub canonical_support_receipts : List PublishedReceipt

-- `revisions/`, the directories left in `.staging/`, and `CURRENT.json`
pub record Store : Type 0 where
  pub registry_version : String
  pub rule_version : String
  pub revisions : List (String × Payload)
  pub staging : List String
  pub current : Option String

pub data PublicationError : Type 0 where
  invalid_revision registry_mismatch rule_mismatch revision_exists : PublicationError
  staged_invalid revision_not_found : PublicationError
  os_error : Stage → PublicationError

abbrev tail : List String → List String
tail [] = []
tail (x ∷ xs) = xs

abbrev pub has_slash : String → Bool
has_slash s = contains b'/' (codes s)

module _ (codec : Codec) where
  open codec use {dumps_spaced, sha256_hex}

  pub receipt_id : String → SupportReceipt → ℕ → String
  receipt_id revision r ordinal = text_append "support:" (
      sha256_hex (
        dumps_spaced (
          array (
            items (
              text revision
              ∷ text r.canonical_fact_identity
              ∷ text r.source_admission
              ∷ integer ordinal
              ∷ [])))))

  -- `for ordinal, receipt in enumerate(...)`
  unfoldable pub publish_receipts : String → ℕ → List SupportReceipt → List PublishedReceipt
  publish_receipts revision n [] = []
  publish_receipts revision n (r ∷ rs) =
      record { receipt = r; canonical_revision = revision; receipt_id = receipt_id revision r n }
      ∷ publish_receipts revision (suc n) rs

  unfoldable pub payload_of : String → CanonicalPublicationBatch → Payload
  payload_of revision b = record {
    revision = revision;
    input_revision = b.input_revision;
    provider = b.provider;
    provider_version = b.provider_version;
    coverage = b.coverage;
    warnings = b.warnings;
    registry_version = b.registry_version;
    rule_version = b.rule_version;
    canonical_state_before = b.canonical_state_before;
    canonical_state_after = b.canonical_state_after;
    admission_digests = b.admission_digests;
    reconciliation = b.reconciliation;
    canonical_support_receipts = publish_receipts revision 0 b.support_receipts;
  }

  module _ (read_back : Payload → Payload) (fault : Option Stage) where
    -- the tests before the file system is touched
    abbrev refusal : Store → String → CanonicalPublicationBatch → Option PublicationError
    refusal st revision b =
        if revision == "" || has_slash revision
        then some invalid_revision
        else if not (b.registry_version == st.registry_version)
        then some registry_mismatch
        else if not (b.rule_version == st.rule_version)
        then some rule_mismatch
        else if fails fault make_directories
        then some (os_error make_directories)
        else none

    -- `target.exists()`; the directories "." and ".." of the file system exist too
    abbrev exists : Store → String → Bool
    exists st revision =
        revision == "."
        || revision == ".."
        || (elim (lookup revision st.revisions) [ none ↦ false | some p ↦ true ])

    -- the `try` up to the move of the bundle; `some` is what the handler raises again, behind its
    -- removal of the staged directory
    abbrev staging_failure : String → Payload → Option PublicationError
    staging_failure revision payload =
        if fails fault write_bundle
        then some (os_error write_bundle)
        else if fails fault read_bundle
        then some (os_error read_bundle)
        else if not ((read_back payload).revision == revision)
        then some staged_invalid
        else if fails fault move_bundle
        then some (os_error move_bundle)
        else none

    -- the `try` behind the move: the staged directory is no more, and the handler removes nothing
    abbrev point : Store → String → Payload → Result PublicationError Payload × Store
    point st revision payload =
        if fails fault write_pointer
        then (err (os_error write_pointer), st)
        else if fails fault move_pointer
        then (err (os_error move_pointer), st)
        else (ok payload, record st { current = some revision })

    -- the handler removes the staged directory; the move takes it away too
    abbrev stage_and_move : Store → String → Payload → Result PublicationError Payload × Store
    stage_and_move st revision payload = elim (staging_failure revision payload) [
      | some e ↦ (err e, record st { staging = tail st.staging })
      | none ↦
          point
            (record st {
              staging = tail st.staging;
              revisions = insert revision payload st.revisions;
            })
            revision payload
    ]

    unfoldable pub publish :
        Store → String → CanonicalPublicationBatch → Result PublicationError Payload × Store
    publish st revision b = elim (refusal st revision b) [
      | some e ↦ (err e, st)
      | none ↦
          if exists st revision
          then (err revision_exists, st)
          else if fails fault make_staged
          then (err (os_error make_staged), st)
          else stage_and_move (record st { staging = revision ∷ st.staging }) revision
              (payload_of revision b)
    ]

-- `current_revision`
unfoldable pub current_revision : Store → Option String
current_revision st = st.current

abbrev matching : String → List PublishedReceipt → List PublishedReceipt
matching k [] = []
matching k (r ∷ rs) =
    let rest = matching k rs in if r.receipt.canonical_fact_identity == k then r ∷ rest else rest

abbrev receipts_in : String → Option Payload → Result PublicationError (List PublishedReceipt)
receipts_in k none = err revision_not_found
receipts_in k (some p) = ok (matching k p.canonical_support_receipts)

unfoldable pub support_receipts :
    Store → String → String → Result PublicationError (List PublishedReceipt)
support_receipts st revision evidence_id =
    if revision == "" || revision == "." || revision == ".." || has_slash revision
    then err invalid_revision
    else receipts_in evidence_id (lookup revision st.revisions)
