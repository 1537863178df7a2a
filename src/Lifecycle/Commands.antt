-- ===== src/Lifecycle/Commands.antt =====
-- `apply_command` and `open_change` of rintel/design_lifecycle/service.py. Digests, the evidence
-- brief and the payloads of the receipts, which nothing of the service reads again, are left out.
pub mod Soundness
pub mod Steps
pub mod Exactness
use rintel_core.Prelude.{
  ℕ, suc, String, Bool, true, false, ◌&&◌, ◌||◌, not, Option, none, some, List, [], ◌∷◌, ◌++◌, map,
  contains, any, all, keep, find_first, is_nil, Result, ok, err, raise_if, ◌>>◌, ◌>>=◌, ◌==◌,
  nat_eq, string_eq, option_eq, if◌then◌else◌, is_blank,
}
use rintel_core.Prelude.Json.{Json, text, array, object, nil, Fields, end, field, get_field, dict}
use rintel_core.Evidence.Wire.{Codec}
use rintel_core.Lifecycle.Models.{
  opened, planned, implementing, evidence_matched, verified, closed, abandoned, state_eq,
  is_matched, DesignRef, AcceptanceCriterion, DesignRevision, previous, pending, IndexJobLink,
  RepairApplication, Implementation, ExpectedActual, LvsResult, CriterionResult, CloseReceipt,
  DesignChange, Mutation, Action, plan_change, design_mutation, begin_implementation,
  record_repair_application, record_reindex, run_reindex, request_reindex, adopt_index_job,
  evaluate_expected_actual, verify_change, close_change, abandon_change, Command, Code,
  stale_preflight, stale_design_revision, terminal_change, design_drc_not_acceptable,
  index_job_proof_required, reindex_required, index_job_already_requested, index_job_not_pending,
  verification_incomplete, test_receipt_required, invalid_design_plane,
}
use rintel_core.Lifecycle.Context.{
  Context, Snapshot, Edge, TestReceipt, IndexJob, JobResult, implementation_of, find_snapshot,
  active_revision, index_job, require_actual_current,
}
use rintel_core.Lifecycle.Comparison.{evaluate, convert_values}
use rintel_core.Lifecycle.Values.{or_else, set_field, list_of, dict_of}
use rintel_core.Lifecycle.Adoption.{adopt}
use rintel_core.Lifecycle.DesignDrc.{run_design_drc}
use rintel_core.Lifecycle.Gates.{
  is_terminal, require_state, is_adopted, open_link, drc_acceptable, is_recorded, assert_closable,
  CloseRefusal, close_code, requires_test, is_proof, result_for, is_lacking, is_superseded,
  evaluate_command,
}

abbrev either : {A : Type 0} → Option A → Option A → Option A
either (some a) b = some a
either none b = b

-- the claim of a plan as it is kept, where its support is a list and its evidence a dictionary
unfoldable pub normalize_claim : DesignChange → Fields → Result Code Fields
unfolding list_of dict_of
normalize_claim c claim = do
  support ← list_of (or_else (array nil) (get_field "support" claim))
  expected ← dict_of (or_else (object end) (get_field "expected_evidence" claim))
  ok (
      set_field "expected_change" (object expected) (
        set_field "design_intent" (text c.intent) (
          set_field "base_as_is_support"
            (object (
              dict (
                ("canonical_revision", text c.base_canonical_revision)
                ∷ ("support", support)
                ∷ [])))
            (set_field "authority" (text "DESIGN_ANNOTATION") claim))))

unfoldable pub normalize_all : DesignChange → List Fields → Result Code (List Fields)
unfolding normalize_claim
normalize_all c [] = ok []
normalize_all c (claim ∷ claims) = do
  first ← normalize_claim c claim
  rest ← normalize_all c claims
  ok (first ∷ rest)

-- the next version of a change
abbrev advance : ℕ → DesignChange → DesignChange
advance now c = record c { version = suc c.version; updated_at = now }

abbrev revise :
    Context → DesignChange → Option DesignRef → Option DesignRef → List Fields → DesignRevision
revise x c architecture flow claims = record {
  id = x.new_id;
  change_id = c.id;
  architecture_proposal_ref = architecture;
  flow_model_ref = flow;
  expected_changes = claims;
  created_at = x.now;
}

abbrev pub or_not_verified : String → Option CriterionResult → CriterionResult
or_not_verified id none = record { criterion_id = id; status = "NOT_VERIFIED"; evidence_refs = [] }
or_not_verified id (some r) = r

abbrev pub normalized : List CriterionResult → AcceptanceCriterion → CriterionResult
normalized results a = or_not_verified a.id (result_for results a.id)

abbrev pub with_code : Result CloseRefusal (Unit {0}) → Result Code (Unit {0})
with_code (ok u) = ok u
with_code (err e) = err (close_code e)

module _ (codec : Codec) (x : Context) (c : DesignChange) where
  unfoldable pub plan : List Fields → Option DesignRef → Option DesignRef → Result Code DesignChange
  unfolding require_state normalize_all run_design_drc
  plan claims architecture flow = do
    require_state c (opened ∷ planned ∷ [])
    normalized_claims ← normalize_all c claims
    ok (record (advance x.now c) {
      design_revision =
          revise x c (either architecture c.design_revision.architecture_proposal_ref)
            (either flow c.design_revision.flow_model_ref) normalized_claims;
      design_drc = some (run_design_drc codec x.recursion_fails c.scope normalized_claims);
      state = planned;
    })

  abbrev pub of_plane : Mutation → DesignRef → Result Code DesignRevision
  of_plane m r =
      if m.plane == "architecture"
      then ok
          (revise x c (some r) c.design_revision.flow_model_ref c.design_revision.expected_changes)
      else if m.plane == "flow"
      then ok (
          revise x c c.design_revision.architecture_proposal_ref (some r)
            c.design_revision.expected_changes)
      else err invalid_design_plane

  -- `_apply_design_mutation`, whose two planes are given
  abbrev pub apply_design_mutation : Mutation → Result Code DesignRef
  apply_design_mutation m =
      if m.plane == "architecture" || m.plane == "flow"
      then x.mutate c m
      else err invalid_design_plane

  unfoldable pub mutate_design : Mutation → Result Code DesignChange
  unfolding require_state
  mutate_design m = do
    require_state c (opened ∷ planned ∷ [])
    r ← apply_design_mutation m
    d ← of_plane m r
    ok (record (advance x.now c) { design_revision = d })

  abbrev begun : Fields → Implementation
  begun scope = record {
    expected_touched_scope = some scope;
    actual_changed_files = [];
    current_evidence_revision = some c.base_canonical_revision;
    actual_evidence = [];
    observation_status = some previous;
    repair_applications = [];
    index_job = none;
  }

  unfoldable pub begin : Fields → Result Code DesignChange
  unfolding require_state
  begin scope = do
    require_state c (planned ∷ [])
    raise_if (not (drc_acceptable c)) design_drc_not_acceptable
    ok (record (advance x.now c) { implementation = some (begun scope); state = implementing })

  unfoldable pub record_repair : RepairApplication → Result Code DesignChange
  unfolding require_state
  record_repair r = do
    require_state c (implementing ∷ [])
    ok (record (advance x.now c) {
      implementation = some (record (implementation_of c) {
        repair_applications = (implementation_of c).repair_applications ++ (r ∷ []);
        observation_status = some previous;
      });
    })

  unfoldable pub refuse_reindex : Result Code DesignChange
  unfolding require_state
  refuse_reindex = require_state c (implementing ∷ []) >> err index_job_proof_required

  -- the prior job has failed, or there is none that is active
  abbrev pub no_prior_job : Option IndexJobLink → Result Code (Unit {0})
  no_prior_job none = ok tt
  no_prior_job (some l) = do
    j ← index_job x l.job_id c.repo_id
    raise_if (not (j.status == "failed")) index_job_already_requested

  unfoldable pub request_job : String → Result Code DesignChange
  unfolding require_state index_job active_revision
  request_job id = do
    require_state c (implementing ∷ [])
    no_prior_job (open_link c)
    j ← index_job x id c.repo_id
    raise_if (not (j.status == "pending")) index_job_not_pending
    ok (record (advance x.now c) {
      implementation = some (record (implementation_of c) {
        observation_status = some pending;
        index_job = some (record {
          job_id = id;
          requested_design_revision = c.design_revision.id;
          input_canonical_revision = active_revision x c.repo_id;
          requested_at = x.now;
          adopted_at = none;
        });
      });
    })

  abbrev pub evidence_revision : String
  evidence_revision = elim (implementation_of c).current_evidence_revision [
    | none ↦ ""
    | some r ↦ r
  ]

  abbrev pub is_match : ExpectedActual → LvsResult → Bool
  is_match e r = is_matched e.outcome && r.overall_status == "MATCH"

  abbrev pub evaluated : ExpectedActual → LvsResult → DesignChange
  evaluated e r = record (advance x.now c) {
    expected_actual = some e;
    lvs_result = some r;
    state = if is_match e r then evidence_matched else implementing;
  }

  unfoldable pub evaluate_actual : Result Code DesignChange
  unfolding require_state require_actual_current evaluate convert_values
  evaluate_actual = do
    require_state c (implementing ∷ [])
    raise_if (not (is_recorded (implementation_of c).observation_status)) reindex_required
    require_actual_current x c
    convert_values c
    r ← x.lvs_runner c
    ok (evaluated (evaluate codec x c evidence_revision) r)

  -- a reference of the criterion's result names a test that proves it
  abbrev is_run : List String → Bool
  is_run refs = any (λ (r : TestReceipt). contains r.id refs && is_proof c r) x.test_receipts

  abbrev pub is_proved : List CriterionResult → AcceptanceCriterion → Bool
  is_proved results a =
      not (requires_test a)
      || elim (result_for results a.id) [ none ↦ false | some r ↦ is_run r.evidence_refs ]

  unfoldable pub verify : List CriterionResult → Result Code DesignChange
  unfolding require_state require_actual_current result_for
  verify results = do
    require_state c (evidence_matched ∷ [])
    require_actual_current x c
    raise_if (any (is_lacking results) c.acceptance_criteria) verification_incomplete
    raise_if (not (all (is_proved results) c.acceptance_criteria)) test_receipt_required
    ok (record (advance x.now c) {
      verification = map (normalized results) c.acceptance_criteria;
      state = verified;
    })

  abbrev pub close_receipt_of : Fields → CloseReceipt
  close_receipt_of rules = record {
    base_revision = c.base_canonical_revision;
    design_revision = c.design_revision.id;
    final_canonical_revision = (implementation_of c).current_evidence_revision;
    expected_actual_diff = c.expected_actual;
    verification_evidence = c.verification;
    remaining_unknowns = c.remaining_unknowns;
    rule_versions = rules;
  }

  abbrev pub closable : Result Code (Unit {0})
  closable = with_code (assert_closable x c)

  unfoldable pub close : Fields → Result Code DesignChange
  unfolding require_state require_actual_current assert_closable
  close rules = do
    require_state c (verified ∷ [])
    require_actual_current x c
    closable
    ok (record (advance x.now c) { close_receipt = some (close_receipt_of rules); state = closed })

  unfoldable pub abandon : DesignChange
  abandon = record (advance x.now c) { state = abandoned }

  -- the branch of `apply_command` for the class of the command
  unfoldable pub act : Action → Result Code DesignChange
  unfolding plan mutate_design begin record_repair refuse_reindex request_job adopt evaluate_actual
      verify close abandon
  act (plan_change claims architecture flow) = plan claims architecture flow
  act (design_mutation m) = mutate_design m
  act (begin_implementation scope) = begin scope
  act (record_repair_application r) = record_repair r
  act record_reindex = refuse_reindex
  act run_reindex = refuse_reindex
  act (request_reindex id) = request_job id
  act (adopt_index_job id selectors) = adopt x c id selectors
  act evaluate_expected_actual = evaluate_actual
  act (verify_change results) = verify results
  act (close_change rules) = close rules
  act (abandon_change reason) = ok abandon

abbrev pub raise_first : List Code → Result Code (Unit {0})
raise_first [] = ok tt
raise_first (e ∷ es) = err e

abbrev pub is_other_revision : DesignChange → Command → Bool
is_other_revision c k = elim k.expected_design_revision [
  | none ↦ false
  | some r ↦ not (r == c.design_revision.id)
]

-- `apply_command`, up to its write
unfoldable pub apply_command : Codec → Context → DesignChange → Command → Result Code DesignChange
unfolding evaluate_command act
apply_command codec x c k = do
  raise_first (evaluate_command x c k)
  raise_if (is_superseded c k) stale_preflight
  raise_if (is_other_revision c k) stale_design_revision
  raise_if (is_terminal c.state) terminal_change
  act codec x c k.action
