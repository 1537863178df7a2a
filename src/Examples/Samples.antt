-- ===== src/Examples/Samples.antt =====
-- An engine over the default registry, an envelope that it admits, and concrete library functions.
use rintel_core.Prelude.{String, true, none, some, [], ◌∷◌}
use rintel_core.Prelude.Json.{Json, null, text, end}
use rintel_core.Evidence.Contract.{observed, exact, must, partial}
use rintel_core.Evidence.DefaultRegistry.{default_registry}
use rintel_core.Evidence.Envelope.{Span, ClaimPayload, claim, EvidenceEnvelope, CanonicalStateRef}
use rintel_core.Evidence.Wire.{Codec}
use rintel_core.Evidence.Admission.{Engine}

abbrev sample_dumps : Json → String
sample_dumps (text s) = s
sample_dumps null = "null"
sample_dumps _ = "{}"

abbrev pub sample_codec : Codec
sample_codec = record {
  dumps = sample_dumps;
  dumps_spaced = sample_dumps;
  sha256_hex = λ s. s;
  float_text = λ _. "0.5";
  str_of = sample_dumps;
}

abbrev pub sample_engine : Engine
sample_engine = record { registry = default_registry; rule_version = "evidence-authority-rules/1" }

abbrev pub sample_state : CanonicalStateRef
sample_state = record { revision_id = "r1"; state_hash = "h1"; fact_refs = [] }

abbrev pub sample_span : Span
sample_span = record {
  file = some "a.c";
  start_line = some 3;
  start_column = some 1;
  end_line = some 3;
  end_column = some 9;
  span_kind = some "CALL";
  precision = some "EXACT";
}

abbrev pub sample_claim : ClaimPayload
sample_claim = record {
  claim_id = "fact-1";
  subject = "symbol:f";
  predicate = "CALLS";
  object_value = text "symbol:g";
  source_span = some sample_span;
  truth_class = observed;
  resolution = exact;
  coverage = partial;
  execution_modality = must;
  revision_input = "rev";
  object_is_identity = true;
  confidence_if_applicable = none;
  witness = end;
}

abbrev pub sample_envelope : EvidenceEnvelope
sample_envelope = record {
  lane_id = "clang_provider";
  producer = "rintel-clang";
  producer_version = "1";
  scope = "a.c" ∷ [];
  provenance = end;
  limitations = [];
  payload = claim sample_claim;
}
