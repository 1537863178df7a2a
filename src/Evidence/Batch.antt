-- ===== src/Evidence/Batch.antt =====
-- rintel/provider_arch/_publication_batch.py: the sealed value that the engine hands to publication.
use rintel_core.Prelude.{String, ◌||◌, List, Option, Result, ok, raise_if, ◌>>◌, ◌==◌, string_eq}
use rintel_core.Prelude.Json.{Fields}
use rintel_core.Evidence.Contract.{TruthClass, TargetResolution, Coverage, ExecutionModality}
use rintel_core.Evidence.Envelope.{Span, CanonicalStateRef}
use rintel_core.Evidence.Canonical.Reconcile.{CanonicalizationResult}

-- a support receipt, before its publication
pub record SupportReceipt : Type 0 where
  pub canonical_fact_identity : String
  pub source_admission : String
  pub provider : String
  pub provider_version : String
  pub provider_fact_id : String
  pub truth_class : TruthClass
  pub target_resolution : TargetResolution
  pub coverage : Coverage
  pub execution_modality : ExecutionModality
  pub scope : List String
  pub build_context_id : String
  pub provider_config_digest : String
  pub provenance : Fields
  pub source_span : Option Span
  pub registry_version : String
  pub rule_version : String

pub record CanonicalPublicationBatch : Type 0 where
  pub provider : String
  pub provider_version : String
  pub input_revision : String
  pub coverage : Fields
  pub warnings : List String
  pub reconciliation : CanonicalizationResult
  pub registry_version : String
  pub rule_version : String
  pub canonical_state_before : CanonicalStateRef
  pub canonical_state_after : CanonicalStateRef
  pub admission_digests : List String
  pub support_receipts : List SupportReceipt

pub data BatchError : Type 0 where
  batch_field_required : BatchError

-- `_issue_publication_batch`
unfoldable pub issue_publication_batch :
    CanonicalPublicationBatch → Result BatchError CanonicalPublicationBatch
issue_publication_batch b = do
  raise_if
      (b.provider == ""
        || b.provider_version == ""
        || b.input_revision == ""
        || b.registry_version == ""
        || b.rule_version == "")
      batch_field_required
  ok b
