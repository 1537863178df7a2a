-- ===== src/Evidence/Candidate.antt =====
-- rintel/provider_arch/contract.py: the evidence candidates and results of providers.
pub mod Publishable
use rintel_core.Prelude.{
  String, Bool, true, false, ◌&&◌, ◌||◌, not, Option, none, some, List, [], ◌∷◌, all, Result, ok,
  raise_if, ◌>>◌, leb, ◌==◌, nat_eq, string_eq,
}
use rintel_core.Prelude.Json.{Json, Fields}
use rintel_core.Evidence.Contract.{TruthClass, TargetResolution, ExecutionModality, Coverage}
use rintel_core.Evidence.Envelope.{Span, Confidence, at_least_zero, below_zero}

pub record EvidenceCandidate : Type 0 where
  pub provider_id : String
  pub provider_fact_id : String
  pub subject : String
  pub predicate : String
  pub object_value : Json
  pub source_span : Option Span
  pub truth_class : TruthClass
  pub coverage : Coverage
  pub resolution : TargetResolution
  pub revision_input : String
  pub execution_modality : ExecutionModality
  pub confidence_if_applicable : Option Confidence
  pub witness : Fields
  pub object_is_identity : Bool

-- `0.0 <= confidence <= 1.0`, in billionths; minus zero is zero
abbrev pub in_unit_interval : Confidence → Bool
in_unit_interval (at_least_zero n) = leb n 1000000000
in_unit_interval (below_zero n) = n == 0

abbrev pub confidence_allowed : Option Confidence → Bool
confidence_allowed none = true
confidence_allowed (some c) = in_unit_interval c

pub data CandidateError : Type 0 where
  provider_required fact_required revision_required confidence_out_of_range : CandidateError

-- `EvidenceCandidate.__post_init__`
unfoldable pub check_candidate : EvidenceCandidate → Result CandidateError EvidenceCandidate
check_candidate c = do
  raise_if (c.provider_id == "" || c.provider_fact_id == "") provider_required
  raise_if (c.subject == "" || c.predicate == "") fact_required
  raise_if (c.revision_input == "") revision_required
  raise_if (not (confidence_allowed c.confidence_if_applicable)) confidence_out_of_range
  ok c

pub record ProviderResult : Type 0 where
  pub provider : String
  pub version : String
  pub input_revision : String
  pub facts : List EvidenceCandidate
  pub coverage : Fields
  pub warnings : List String
  pub errors : List String

abbrev pub fact_matches : ProviderResult → EvidenceCandidate → Bool
fact_matches r f = f.provider_id == r.provider && f.revision_input == r.input_revision

abbrev has_no_errors : List String → Bool
has_no_errors [] = true
has_no_errors (e ∷ es) = false

-- the property `publishable`
unfoldable pub publishable : ProviderResult → Bool
publishable r = has_no_errors r.errors && all (fact_matches r) r.facts

pub data ResultError : Type 0 where
  result_has_errors fact_mismatch : ResultError

-- the list `bad` of `require_publishable`
abbrev pub mismatches : ProviderResult → List EvidenceCandidate → List EvidenceCandidate
mismatches r [] = []
mismatches r (f ∷ fs) =
    let rest = mismatches r fs in elim (fact_matches r f) [ true ↦ rest | false ↦ f ∷ rest ]

abbrev pub is_empty : List EvidenceCandidate → Bool
is_empty [] = true
is_empty (f ∷ fs) = false

unfoldable pub require_publishable : ProviderResult → Result ResultError (Unit {0})
require_publishable r = do
  raise_if (not (has_no_errors r.errors)) result_has_errors
  raise_if (not (is_empty (mismatches r r.facts))) fact_mismatch
  ok tt
