-- ===== src/Lifecycle/Gates.antt =====
-- The gates of rintel/design_lifecycle/service.py: `_require_state`, `_assert_closable`, `preflight`
-- and `evaluate_command`. A gate is asked by the names of its reasons; the approval gate, which
-- guards no command, is left out.
use rintel_core.Prelude.{
  String, Bool, true, false, ◌&&◌, ◌||◌, not, Option, none, some, List, [], ◌∷◌, ◌++◌, contains,
  any, keep, find_last, last, is_nil, Result, ok, err, raise_if, ◌==◌, nat_eq, string_eq, option_eq,
  if◌then◌else◌,
}
use rintel_core.Prelude.Json.{get_field, is_truthy}
use rintel_core.Lifecycle.Models.{
  ChangeState, opened, planned, implementing, evidence_matched, verified, closed, abandoned,
  state_eq, is_matched, AcceptanceCriterion, Observation, recorded, IndexJobLink, CriterionResult,
  DesignChange, Action, plan_change, design_mutation, begin_implementation,
  record_repair_application, record_reindex, run_reindex, request_reindex, adopt_index_job,
  evaluate_expected_actual, verify_change, close_change, abandon_change, Command, Code,
  stale_preflight, terminal_change, invalid_transition, invalid_state, design_drc_not_acceptable,
  index_job_proof_required, index_job_active, reindex_required, index_job_already_requested,
  index_job_not_pending, index_job_not_requested, index_job_already_adopted, index_job_incomplete,
  index_job_result_stale, index_job_unavailable, verification_incomplete, test_receipt_required,
  approval_required, close_gate_failed, failed_design_drc, failed_expected_actual, failed_lvs,
  failed_verification,
}
use rintel_core.Lifecycle.Context.{
  Context, TestReceipt, ApprovalReceipt, IndexJob, implementation_of, active_revision, look_up,
  index_job, require_actual_current,
}

abbrev pub is_terminal : ChangeState → Bool
is_terminal s = contains s (closed ∷ abandoned ∷ [])

-- `_require_state`
unfoldable pub require_state : DesignChange → List ChangeState → Result Code (Unit {0})
require_state c allowed = raise_if (not (contains c.state allowed)) invalid_transition

abbrev pub is_adopted : IndexJobLink → Bool
is_adopted l = elim l.adopted_at [ none ↦ false | some t ↦ not (t == 0) ]

-- the index job that is linked and not adopted
abbrev pub open_link : DesignChange → Option IndexJobLink
open_link c = elim (implementation_of c).index_job [
  | none ↦ none
  | some l ↦ if not (l.job_id == "") && not (is_adopted l) then some l else none
]

-- `_require_no_active_job`
unfoldable pub require_no_active_job : DesignChange → Result Code (Unit {0})
require_no_active_job c = elim (open_link c) [ none ↦ ok tt | some l ↦ err index_job_active ]

abbrev pub drc_acceptable : DesignChange → Bool
drc_acceptable c = elim c.design_drc [ none ↦ false | some d ↦ d.acceptable ]

abbrev pub outcome_matched : DesignChange → Bool
outcome_matched c = elim c.expected_actual [ none ↦ false | some e ↦ is_matched e.outcome ]

abbrev pub lvs_matched : DesignChange → Bool
lvs_matched c = elim c.lvs_result [ none ↦ false | some r ↦ r.overall_status == "MATCH" ]

abbrev pub is_recorded : Option Observation → Bool
is_recorded (some recorded) = true
is_recorded _ = false

abbrev pub unless : Bool → Code → List Code
unless true e = []
unless false e = e ∷ []

-- the names of the checks that fail
unfoldable pub failed_checks : DesignChange → List Code
failed_checks c =
    unless (drc_acceptable c) failed_design_drc
    ++ (unless (outcome_matched c) failed_expected_actual
        ++ (unless (lvs_matched c) failed_lvs
            ++ unless (not (is_nil c.verification)) failed_verification))

abbrev pub is_approval : DesignChange → ApprovalReceipt → Bool
is_approval c r =
    r.decision == "APPROVE"
    && r.change_version == c.version
    && not (r.principal_id == "")
    && not (r.auth_session_id == "")
    && not (r.instance_id == "")

abbrev pub is_approved_by : DesignChange → Option ApprovalReceipt → Bool
is_approved_by c none = false
is_approved_by c (some r) = is_approval c r

-- the last receipt of an approval of the design revision
abbrev pub latest_approval : Context → DesignChange → Option ApprovalReceipt
latest_approval x c =
    last (
      keep (λ (r : ApprovalReceipt). r.design_revision == c.design_revision.id) x.approval_receipts)

unfoldable pub is_approved : Context → DesignChange → Bool
is_approved x c = is_approved_by c (latest_approval x c)

abbrev pub needs_approval : DesignChange → Bool
needs_approval c = elim (get_field "approval_required" c.scope) [
  | none ↦ false
  | some v ↦ is_truthy v
]

-- what `_assert_closable` raises
pub data CloseRefusal : Type 0 where
  gates_failed : List Code → CloseRefusal
  not_approved : CloseRefusal

abbrev pub refuse_close : List Code → Bool → Result CloseRefusal (Unit {0})
refuse_close (e ∷ es) b = err (gates_failed (e ∷ es))
refuse_close [] b = raise_if b not_approved

-- `_assert_closable`
unfoldable pub assert_closable : Context → DesignChange → Result CloseRefusal (Unit {0})
unfolding failed_checks is_approved
assert_closable x c = refuse_close (failed_checks c) (needs_approval c && not (is_approved x c))

abbrev pub close_code : CloseRefusal → Code
close_code (gates_failed es) = close_gate_failed
close_code not_approved = approval_required

abbrev pub close_reasons : Result CloseRefusal (Unit {0}) → List Code
close_reasons (ok u) = []
close_reasons (err (gates_failed es)) = es
close_reasons (err not_approved) = approval_required ∷ []

-- the keys of `states` in `preflight`
pub data Gate : Type 0 where
  to_plan to_mutate to_begin to_run_reindex to_request_reindex to_adopt to_record_reindex
        to_evaluate to_verify to_close :
      Gate

abbrev pub allowed_states : Gate → List ChangeState
allowed_states to_plan = opened ∷ planned ∷ []
allowed_states to_mutate = opened ∷ planned ∷ []
allowed_states to_begin = planned ∷ []
allowed_states to_verify = evidence_matched ∷ []
allowed_states to_close = verified ∷ []
allowed_states _ = implementing ∷ []

abbrev pub reason_of : {A : Type 0} → Result Code A → List Code
reason_of (ok a) = []
reason_of (err e) = e ∷ []

-- the reasons of a gate, where its condition on the state holds
abbrev pub reasons_behind : Result Code (Unit {0}) → List Code → List Code
reasons_behind (ok u) es = es
reasons_behind (err e) es = e ∷ []

-- a required criterion that asks for a test
abbrev pub requires_test : AcceptanceCriterion → Bool
requires_test a = a.required && a.kind == "test"

-- a test that passed on this design and on the current evidence
abbrev pub is_proof : DesignChange → TestReceipt → Bool
is_proof c r =
    r.result == "PASS"
    && r.design_revision == c.design_revision.id
    && some r.canonical_revision == (implementation_of c).current_evidence_revision

-- `by_id.get(id)`, where the results are filed by their criterion
unfoldable pub result_for : List CriterionResult → String → Option CriterionResult
result_for results id = find_last (λ (r : CriterionResult). r.criterion_id == id) results

abbrev pub is_pass : Option CriterionResult → Bool
is_pass none = false
is_pass (some r) = r.status == "PASS" && not (is_nil r.evidence_refs)

abbrev pub is_lacking : List CriterionResult → AcceptanceCriterion → Bool
is_lacking results a = a.required && not (is_pass (result_for results a.id))

abbrev pub is_superseded : DesignChange → Command → Bool
is_superseded c k = elim k.expected_version [ none ↦ false | some v ↦ not (v == c.version) ]

module _ (x : Context) (c : DesignChange) where
  abbrev pub stale_reasons : List Code
  stale_reasons =
      if is_recorded (implementation_of c).observation_status
      then reason_of (require_actual_current x c)
      else []

  abbrev pub has_failed : Option IndexJob → Bool
  has_failed none = false
  has_failed (some j) = j.status == "failed"

  abbrev result_snapshot : IndexJob → Option String
  result_snapshot j = elim j.result [ none ↦ none | some r ↦ some r.snapshot_id ]

  abbrev job_reasons : Option IndexJob → List Code
  job_reasons none = index_job_incomplete ∷ []
  job_reasons (some j) =
      if not (j.status == "done")
      then index_job_incomplete ∷ []
      else unless (result_snapshot j == active_revision x c.repo_id) index_job_result_stale

  abbrev adopt_reasons : Option IndexJobLink → List Code
  adopt_reasons none = index_job_not_requested ∷ []
  adopt_reasons (some l) =
      if l.job_id == ""
      then index_job_not_requested ∷ []
      else if is_adopted l
      then index_job_already_adopted ∷ []
      else elim x.job_lookup [
        | none ↦ index_job_unavailable ∷ []
        | some f ↦ job_reasons (f l.job_id)
      ]

  abbrev pub request_reasons : Option IndexJobLink → List Code
  request_reasons none = []
  request_reasons (some l) = unless (has_failed (look_up x l.job_id)) index_job_already_requested

  -- the conditions of `preflight` behind that on the state
  unfoldable pub checks : Gate → List Code
  unfolding require_no_active_job assert_closable
  checks to_plan = []
  checks to_mutate = []
  checks to_begin = unless (drc_acceptable c) design_drc_not_acceptable
  checks to_run_reindex = index_job_proof_required ∷ reason_of (require_no_active_job c)
  checks to_record_reindex = index_job_proof_required ∷ reason_of (require_no_active_job c)
  checks to_request_reindex = request_reasons (open_link c)
  checks to_adopt = adopt_reasons (implementation_of c).index_job
  checks to_evaluate =
      unless (is_recorded (implementation_of c).observation_status) reindex_required
      ++ stale_reasons
  checks to_verify =
      unless (not (any requires_test c.acceptance_criteria) || any (is_proof c) x.test_receipts)
        test_receipt_required
      ++ stale_reasons
  checks to_close = stale_reasons ++ close_reasons (assert_closable x c)

  -- the reasons of `preflight` for an action
  unfoldable pub preflight : Gate → List Code
  unfolding checks require_state
  preflight g =
      if is_terminal c.state
      then terminal_change ∷ []
      else reasons_behind (require_state c (allowed_states g)) (checks g)

  abbrev verify_reasons : List CriterionResult → List Code
  verify_reasons results =
      if c.state == evidence_matched && any (is_lacking results) c.acceptance_criteria
      then verification_incomplete ∷ []
      else []

  abbrev pub pending_reasons : String → List Code → List Code
  pending_reasons id (e ∷ es) = e ∷ es
  pending_reasons id [] = elim (index_job x id c.repo_id) [
    | err e ↦ e ∷ []
    | ok j ↦ unless (j.status == "pending") index_job_not_pending
  ]

  abbrev pub action_reasons : Action → List Code
  action_reasons (plan_change claims a f) = preflight to_plan
  action_reasons (design_mutation m) = preflight to_mutate
  action_reasons (begin_implementation s) = preflight to_begin
  action_reasons (record_repair_application r) = unless (c.state == implementing) invalid_state
  action_reasons record_reindex = preflight to_record_reindex
  action_reasons run_reindex = preflight to_run_reindex
  action_reasons (request_reindex id) = pending_reasons id (preflight to_request_reindex)
  action_reasons (adopt_index_job id selectors) = preflight to_adopt
  action_reasons evaluate_expected_actual = preflight to_evaluate
  action_reasons (verify_change results) = verify_reasons results ++ preflight to_verify
  action_reasons (close_change rules) = preflight to_close
  action_reasons (abandon_change reason) = []

  -- `evaluate_command`: the reasons that deny the command
  unfoldable pub evaluate_command : Command → List Code
  unfolding preflight result_for index_job
  evaluate_command k =
      if is_superseded c k
      then stale_preflight ∷ []
      else if is_terminal c.state
      then terminal_change ∷ []
      else action_reasons k.action
