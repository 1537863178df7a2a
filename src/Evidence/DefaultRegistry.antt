-- ===== src/Evidence/DefaultRegistry.antt =====
-- `DEFAULT_REGISTRY` of rintel/evidence_authority/registry.py, with the tuples that it uses.
use rintel_core.Prelude.{String, true, false, List, [], ◌∷◌, ◌++◌}
use rintel_core.Evidence.Contract.{
  TruthClass, observed, resolved, inferred, heuristic, TargetResolution, exact, candidate_set,
}
use rintel_core.Evidence.Registry.{
  LaneDefinition, LaneRegistry, canonical_candidate, reference_evidence, design_annotation,
}

abbrev pub all_truth : List TruthClass
all_truth = observed ∷ resolved ∷ inferred ∷ heuristic ∷ []

abbrev pub all_resolution : List TargetResolution
all_resolution = exact ∷ candidate_set ∷ TargetResolution.unknown ∷ []

abbrev pub canonical_forbidden : List String
canonical_forbidden = "assign_canonical_id" ∷ "publish_revision" ∷ "promote_truth_without_rule" ∷ []

abbrev pub reference_forbidden : List String
reference_forbidden =
    "canonical_ingestion" ∷ "truth_promotion" ∷ "resolution_promotion" ∷ "delete_canonical_fact"
    ∷ "close_unknown" ∷ []

abbrev pub design_forbidden : List String
design_forbidden =
    "canonical_ingestion" ∷ "truth_promotion" ∷ "claim_observed_reality" ∷ "delete_canonical_fact"
    ∷ "close_unknown" ∷ []

abbrev pub legacy_builtin : LaneDefinition
legacy_builtin = record {
  lane_id = "legacy_builtin";
  producer = "legacy-builtin-*";
  status = "PRODUCTION";
  supported_languages = "c" ∷ "c++" ∷ "fortran" ∷ "python" ∷ [];
  supported_scope = "configured legacy lanes" ∷ [];
  authority_class = canonical_candidate;
  truth_classes_may_propose = all_truth;
  resolution_capabilities = all_resolution;
  coverage_semantics = "provider run coverage; absence is not a negative fact";
  canonical_ingestion = true;
  allowed_uses = "canonical_candidate" ∷ "compare" ∷ "search" ∷ "audit" ∷ [];
  forbidden_uses = canonical_forbidden;
  limitations = "legacy extraction depth varies by language" ∷ [];
}

abbrev pub clang_provider : LaneDefinition
clang_provider = record {
  lane_id = "clang_provider";
  producer = "rintel-clang";
  status = "PILOT_ONLY";
  supported_languages = "c" ∷ "c++" ∷ [];
  supported_scope = "FAC configured C translation units" ∷ [];
  authority_class = canonical_candidate;
  truth_classes_may_propose = all_truth;
  resolution_capabilities = all_resolution;
  coverage_semantics = "run-specific COMPLETE/PARTIAL/UNKNOWN from RPP";
  canonical_ingestion = true;
  allowed_uses = "canonical_candidate" ∷ "compiler_semantics" ∷ "compare" ∷ "audit" ∷ [];
  forbidden_uses = canonical_forbidden;
  limitations = "AppleClang AST/SARIF interface is pilot-only" ∷ [];
}

abbrev pub flang_reference : LaneDefinition
flang_reference = record {
  lane_id = "flang_reference";
  producer = "llvm-flang";
  status = "REFERENCE_ONLY";
  supported_languages = "fortran" ∷ [];
  supported_scope = "bounded FAC HLFIR witnesses" ∷ [];
  authority_class = reference_evidence;
  truth_classes_may_propose = all_truth;
  resolution_capabilities = all_resolution;
  coverage_semantics = "probe-scoped; no complete dependency manifest";
  canonical_ingestion = false;
  allowed_uses = "show" ∷ "search" ∷ "agent_reasoning" ∷ "manual_audit" ∷ "cross_check" ∷ [];
  forbidden_uses = reference_forbidden;
  limitations = "not an RPP Provider" ∷ "-fc1 unstable" ∷ "structured diagnostics unavailable" ∷ [];
}

abbrev pub ripwire_reference : LaneDefinition
ripwire_reference = record {
  lane_id = "ripwire_reference";
  producer = "ripwire";
  status = "REFERENCE_ONLY";
  supported_languages = "multi-language" ∷ [];
  supported_scope = "measured FAC/JPL feasibility scope" ∷ [];
  authority_class = reference_evidence;
  truth_classes_may_propose = heuristic ∷ inferred ∷ [];
  resolution_capabilities = candidate_set ∷ TargetResolution.unknown ∷ [];
  coverage_semantics = "broad heuristic coverage; impact means transitive reachability";
  canonical_ingestion = false;
  allowed_uses = "show" ∷ "search" ∷ "candidate_discovery" ∷ "manual_audit" ∷ "cross_check" ∷ [];
  forbidden_uses = reference_forbidden;
  limitations = "not canonical" ∷ "name-based calls may be ambiguous" ∷ [];
}

abbrev pub runtime_trace : LaneDefinition
runtime_trace = record {
  lane_id = "runtime_trace";
  producer = "rintel-runtime-trace";
  status = "PRODUCTION_EVIDENCE";
  supported_languages = "runtime" ∷ [];
  supported_scope = "observed instrumented runs" ∷ [];
  authority_class = canonical_candidate;
  truth_classes_may_propose = observed ∷ [];
  resolution_capabilities = exact ∷ TargetResolution.unknown ∷ [];
  coverage_semantics = "run-scoped PARTIAL; not observed is not impossible";
  canonical_ingestion = true;
  allowed_uses = "canonical_candidate" ∷ "observed_execution" ∷ "audit" ∷ [];
  forbidden_uses = canonical_forbidden ++ "promote_observed_to_static_must" ∷ [];
  limitations = [];
}

abbrev pub runtime_data : LaneDefinition
runtime_data = record {
  lane_id = "runtime_data";
  producer = "rintel-runtime-data";
  status = "PRODUCTION_EVIDENCE";
  supported_languages = "runtime" ∷ [];
  supported_scope = "observed runtime data probes" ∷ [];
  authority_class = canonical_candidate;
  truth_classes_may_propose = observed ∷ [];
  resolution_capabilities = exact ∷ TargetResolution.unknown ∷ [];
  coverage_semantics = "run/probe-scoped PARTIAL; absence is not a negative fact";
  canonical_ingestion = true;
  allowed_uses = "canonical_candidate" ∷ "observed_data" ∷ "audit" ∷ [];
  forbidden_uses = canonical_forbidden ++ "promote_observed_to_static_must" ∷ [];
  limitations = [];
}

abbrev pub human_annotation : LaneDefinition
human_annotation = record {
  lane_id = "human_annotation";
  producer = "human";
  status = "DESIGN_ONLY_DEFAULT";
  supported_languages = "all" ∷ [];
  supported_scope = "review and interpretation" ∷ [];
  authority_class = design_annotation;
  truth_classes_may_propose = [];
  resolution_capabilities = [];
  coverage_semantics = "not applicable; annotations are not coverage claims";
  canonical_ingestion = false;
  allowed_uses = "show" ∷ "search" ∷ "agent_reasoning" ∷ "review" ∷ "design" ∷ [];
  forbidden_uses = design_forbidden;
  limitations = "promotion requires a future explicit versioned audited rule" ∷ [];
}

abbrev pub design_plane : LaneDefinition
design_plane = record {
  lane_id = "design_plane";
  producer = "rintel-design";
  status = "DESIGN_ONLY";
  supported_languages = "all" ∷ [];
  supported_scope = "TO-BE architecture and planned relationships" ∷ [];
  authority_class = design_annotation;
  truth_classes_may_propose = [];
  resolution_capabilities = [];
  coverage_semantics = "not applicable; design intent is not code coverage";
  canonical_ingestion = false;
  allowed_uses = "show" ∷ "search" ∷ "design" ∷ "review" ∷ [];
  forbidden_uses = design_forbidden;
  limitations = "planned relationship is not observed reality" ∷ [];
}

abbrev pub default_lanes : List LaneDefinition
default_lanes =
    legacy_builtin ∷ clang_provider ∷ flang_reference ∷ ripwire_reference ∷ runtime_trace
    ∷ runtime_data ∷ human_annotation ∷ design_plane ∷ []

-- `DEFAULT_REGISTRY`
abbrev pub default_registry : LaneRegistry
default_registry = record { version = "evidence-authority-registry/1"; lanes = default_lanes }
