-- ===== src/Examples/Supporting.antt =====
-- `issue_fact_support` of rintel/evidence_authority/engine.py for one edge.
use rintel_core.Prelude.{◌≡◌, refl, some, none, ok, fnmatchcase}
use rintel_core.Prelude.Json.{dict, texts}
use rintel_core.Evidence.Registry.{canonical_candidate, LaneDefinition, require, find_lane}
use rintel_core.Evidence.DefaultRegistry.{clang_provider}
use rintel_core.Evidence.Envelope.{ClaimPayload, claim}
use rintel_core.Evidence.Wire.{digest, to_wire, claim_to_wire}
use rintel_core.Evidence.Admission.{CanonicalAdmission, candidate_of, issue, lane_of}
use rintel_core.Evidence.Support.{
  FactSupport, CanonicalSupportReceipt, receipt_of, is_edge, issue_fact_support,
}
use rintel_core.Evidence.Support.Identity.{Names, issue_fact_support-Names}
use rintel_core.Examples.Samples.{
  sample_codec, sample_engine, sample_state, sample_claim, sample_envelope,
}

abbrev admission : CanonicalAdmission
admission =
    issue sample_codec sample_engine sample_envelope sample_state clang_provider
      (candidate_of sample_envelope sample_claim)

abbrev edge : FactSupport
edge = record {
  canonical_revision = "r1";
  canonical_fact_id = "edge:CALLS:symbol:f:symbol:g";
  canonical_fact_kind = "CALLS";
  canonical_fact_type = "edge";
  owner_path = "a.c";
  build_context_id = "b";
  source_digest = none;
  source_ids = some ("symbol:f", "symbol:g");
  reattest_source_receipt_id = none;
}

abbrev sealed : CanonicalSupportReceipt
sealed = receipt_of sample_codec sample_engine admission sample_envelope edge sample_claim

supported : issue_fact_support sample_codec sample_engine admission sample_envelope edge ≡ ok sealed
unfolding issue_fact_support is_edge lane_of require find_lane fnmatchcase digest to_wire
    claim_to_wire dict texts
supported = refl

issue_fact_support-Names_example :
    (c : ClaimPayload) × (sample_envelope.payload ≡ claim c)
    × Names edge c
    × (lane : LaneDefinition) × (lane_of sample_engine sample_envelope ≡ ok lane)
    × (lane.authority_class ≡ canonical_candidate)
    × (admission.envelope_digest ≡ digest sample_codec sample_envelope)
    × (admission.registry_version ≡ sample_engine.registry.version)
    × (admission.rule_version ≡ sample_engine.rule_version)
    × (sealed ≡ receipt_of sample_codec sample_engine admission sample_envelope edge c)
issue_fact_support-Names_example =
    issue_fact_support-Names sample_codec sample_engine admission sample_envelope edge sealed
      supported
