-- ===== src/Evidence/Bridge.antt =====
-- rintel/evidence_authority/bridge.py: receipts for a relation between two languages.
pub mod Basis
use rintel_core.Prelude.{
  String, Bool, true, false, ◌&&◌, ◌||◌, not, Option, none, some, List, [], ◌∷◌, all, any, contains,
  Result, ok, err, raise_if, ◌>>◌, ◌>>=◌, ◌==◌, string_eq, nat_eq, if◌then◌else◌,
}
use rintel_core.Prelude.Json.{
  Json, null, boolean, integer, negative, real, text, array, object, nil, cons, Fields, end, field,
  keys, get_field, is_truthy,
}

pub data BridgeKind : Type 0 where
  bind_c explicit_wrapper compiler_external_symbol object_link_symbol runtime_observed_call :
      BridgeKind

pub data BridgeError : Type 0 where
  unapproved_basis endpoints_invalid provenance_missing provenance_empty : BridgeError

-- `BridgeKind(basis)`
unfoldable pub bridge_kind : String → Option BridgeKind
bridge_kind s =
    if s == "BIND_C"
    then some bind_c
    else if s == "EXPLICIT_WRAPPER"
    then some explicit_wrapper
    else if s == "COMPILER_EXTERNAL_SYMBOL"
    then some compiler_external_symbol
    else if s == "OBJECT_LINK_SYMBOL"
    then some object_link_symbol
    else if s == "RUNTIME_OBSERVED_CALL"
    then some runtime_observed_call
    else none

-- `_REQUIRED_PROVENANCE`
abbrev pub required_provenance : BridgeKind → List String
required_provenance bind_c = "bind_c_name" ∷ "fortran_symbol" ∷ "c_symbol" ∷ "source_artifact" ∷ []
required_provenance explicit_wrapper = "wrapper_ref" ∷ "wrapped_ref" ∷ "source_artifact" ∷ []
required_provenance compiler_external_symbol =
    "compiler" ∷ "emitted_symbol" ∷ "source_artifact" ∷ []
required_provenance object_link_symbol = "object_hash" ∷ "symbol" ∷ "source_artifact" ∷ []
required_provenance runtime_observed_call = "run_id" ∷ "call_event" ∷ "source_artifact" ∷ []

pub record CrossLanguageBridge : Type 0 where
  pub source_ref : String
  pub target_ref : String
  pub basis : BridgeKind
  pub provenance : Fields
  pub relationship : String
  pub identity_merged : Bool

abbrev pub has_value : Fields → String → Bool
has_value fs k = elim (get_field k fs) [ none ↦ false | some v ↦ is_truthy v ]

abbrev kind_of : String → Result BridgeError BridgeKind
kind_of s = elim (bridge_kind s) [ none ↦ err unapproved_basis | some k ↦ ok k ]

unfoldable pub validate_bridge :
    String → String → String → Fields → Result BridgeError CrossLanguageBridge
validate_bridge source_ref target_ref basis provenance = do
  kind ← kind_of basis
  raise_if (source_ref == "" || target_ref == "" || source_ref == target_ref) endpoints_invalid
  raise_if (not (all (λ k. contains k (keys provenance)) (required_provenance kind)))
      provenance_missing
  raise_if (not (all (has_value provenance) (required_provenance kind))) provenance_empty
  ok (record {
    source_ref = source_ref;
    target_ref = target_ref;
    basis = kind;
    provenance = provenance;
    relationship = "ABI_BRIDGE";
    identity_merged = false;
  })
