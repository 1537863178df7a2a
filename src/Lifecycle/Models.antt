-- ===== src/Lifecycle/Models.antt =====
-- rintel/design_lifecycle/models.py, and the dictionaries that service.py keeps in a change. A key
-- that may be missing is an option. The evidence brief, which no command reads, is left out.
use rintel_core.Prelude.{ℕ, String, Bool, true, false, ◌≡◌, ◌↔◌, Option, List, Eq, arith}
use rintel_core.Prelude.Json.{Fields}

pub data ChangeState : Type 0 where
  opened planned implementing evidence_matched verified closed abandoned : ChangeState

abbrev state_beq : ChangeState → ChangeState → Bool
state_beq opened opened = true
state_beq planned planned = true
state_beq implementing implementing = true
state_beq evidence_matched evidence_matched = true
state_beq verified verified = true
state_beq closed closed = true
state_beq abandoned abandoned = true
state_beq _ _ = false

pub state_beq_iff : (a b : ChangeState) → (state_beq a b ≡ true) ↔ (a ≡ b)
state_beq_iff a b = ground arith

instance abbrev pub state_eq : Eq ChangeState
state_eq = record { same = state_beq; same_iff = state_beq_iff }

pub data Outcome : Type 0 where
  matched missing_implementation unexpected_implementation unknown : Outcome

abbrev pub is_matched : Outcome → Bool
is_matched matched = true
is_matched _ = false

pub record DesignRef : Type 0 where
  pub identity : String
  pub revision : String

pub record AcceptanceCriterion : Type 0 where
  pub id : String
  pub kind : String
  pub required : Bool

pub record DesignRevision : Type 0 where
  pub id : String
  pub change_id : String
  pub architecture_proposal_ref : Option DesignRef
  pub flow_model_ref : Option DesignRef
  pub expected_changes : List Fields
  pub created_at : ℕ

-- a row of the canonical graph, or a selector of one
pub record Relation : Type 0 where
  pub kind : String
  pub source : String
  pub target : String

pub data Observation : Type 0 where
  previous pending recorded : Observation

pub record IndexJobLink : Type 0 where
  pub job_id : String
  pub requested_design_revision : String
  pub input_canonical_revision : Option String
  pub requested_at : ℕ
  pub adopted_at : Option ℕ

pub record RepairApplication : Type 0 where
  pub application_id : String
  pub previous_attempt : String
  pub repair_candidate_id : String
  pub source_revision_after_claim : String

pub record Implementation : Type 0 where
  pub expected_touched_scope : Option Fields
  pub actual_changed_files : List String
  pub current_evidence_revision : Option String
  pub actual_evidence : List Relation
  pub observation_status : Option Observation
  pub repair_applications : List RepairApplication
  pub index_job : Option IndexJobLink

pub record DesignDrc : Type 0 where
  pub acceptable : Bool

pub record ExpectedActual : Type 0 where
  pub outcome : Outcome
  pub missing : List Relation
  pub unproven_absence : List Relation
  pub unexpected : List Relation
  pub sources : List String
  pub kinds : List String
  pub final_canonical_revision : String

pub record LvsResult : Type 0 where
  pub overall_status : String

pub record CriterionResult : Type 0 where
  pub criterion_id : String
  pub status : String
  pub evidence_refs : List String

pub record CloseReceipt : Type 0 where
  pub base_revision : String
  pub design_revision : String
  pub final_canonical_revision : Option String
  pub expected_actual_diff : Option ExpectedActual
  pub verification_evidence : List CriterionResult
  pub remaining_unknowns : List Fields
  pub rule_versions : Fields

pub record DesignChange : Type 0 where
  pub id : String
  pub repo_id : String
  pub base_canonical_revision : String
  pub intent : String
  pub scope : Fields
  pub acceptance_criteria : List AcceptanceCriterion
  pub design_revision : DesignRevision
  pub state : ChangeState
  pub design_drc : Option DesignDrc
  pub implementation : Option Implementation
  pub expected_actual : Option ExpectedActual
  pub lvs_result : Option LvsResult
  pub verification : List CriterionResult
  pub close_receipt : Option CloseReceipt
  pub remaining_unknowns : List Fields
  pub version : ℕ
  pub created_at : ℕ
  pub updated_at : ℕ

-- a change of the design in another plane, such as the architecture
pub record Mutation : Type 0 where
  pub plane : String
  pub operation : String
  pub payload : Fields

-- the classes of commands
pub data Action : Type 0 where
  plan_change : List Fields → Option DesignRef → Option DesignRef → Action
  design_mutation : Mutation → Action
  begin_implementation : Fields → Action
  record_repair_application : RepairApplication → Action
  record_reindex run_reindex : Action
  request_reindex : String → Action
  adopt_index_job : String → List Relation → Action
  evaluate_expected_actual : Action
  verify_change : List CriterionResult → Action
  close_change : Fields → Action
  abandon_change : String → Action

pub record Command : Type 0 where
  pub actor : String
  pub action : Action
  pub expected_version : Option ℕ
  pub expected_design_revision : Option String

-- the codes of `DesignLifecycleError`, and what the interpreter raises in its place: `TypeError` or
-- `ValueError`, and `RecursionError`
pub data Code : Type 0 where
  stale_preflight stale_design_revision terminal_change invalid_transition invalid_state : Code
  design_drc_not_acceptable index_job_proof_required index_job_active reindex_required : Code
  actual_revision_stale index_job_already_requested index_job_identity_mismatch : Code
  index_job_not_pending index_job_not_requested index_job_already_adopted : Code
  index_job_incomplete index_job_result_stale index_job_unavailable : Code
  index_job_result_unpublished index_job_run_mismatch actual_evidence_not_canonical : Code
  verification_incomplete test_receipt_required approval_required close_gate_failed : Code
  failed_design_drc failed_expected_actual failed_lvs failed_verification : Code
  invalid_base_revision intent_required concurrent_update invalid_design_plane : Code
  change_not_found change_exists receipt_exists test_run_unavailable : Code
  test_run_binding_mismatch test_run_incomplete approver_authorization_unavailable : Code
  invalid_approval_decision : Code
  malformed_value recursion_exceeded : Code
  mutation_refused : String → Code
