-- ===== src/Lifecycle/Commands/Steps.antt =====
-- Each command of rintel/design_lifecycle/service.py makes a step of the documented lifecycle.
use rintel_core.Prelude.{
  suc, String, true, false, not, Option, List, [], ◌∷◌, any, all, is_nil, Result, ok, Bool-cases,
  inl, inr, ◌≡◌, refl, arith, ◌==◌, nat_eq, string_eq, option_eq, after, after_raise, ok-subst,
}
use rintel_core.Prelude.Json.{Fields}
use rintel_core.Evidence.Wire.{Codec}
use rintel_core.Lifecycle.Models.{
  ChangeState, opened, planned, implementing, evidence_matched, verified, abandoned, state_eq,
  DesignRef, Relation, RepairApplication, ExpectedActual, LvsResult, CriterionResult, DesignChange,
  Mutation, Action, plan_change, design_mutation, begin_implementation, record_repair_application,
  record_reindex, run_reindex, request_reindex, adopt_index_job, evaluate_expected_actual,
  verify_change, close_change, abandon_change, Command, Code, stale_preflight,
  stale_design_revision, terminal_change, design_drc_not_acceptable, reindex_required,
  index_job_not_pending, verification_incomplete, test_receipt_required,
}
use rintel_core.Lifecycle.Context.{Context, index_job, implementation_of, require_actual_current}
use rintel_core.Lifecycle.Gates.{
  is_superseded, evaluate_command, is_terminal, drc_acceptable, open_link, is_recorded, is_lacking,
  assert_closable, failed_checks,
}
use rintel_core.Lifecycle.Comparison.{evaluate, convert_values}
use rintel_core.Lifecycle.Adoption.{adopt, adopt_result, proved_result}
use rintel_core.Lifecycle.Commands.{
  apply_command, raise_first, is_other_revision, is_proved, act, abandon, refuse_reindex,
  evidence_revision, no_prior_job, closable, apply_design_mutation, of_plane, is_match, evaluated,
  close_receipt_of, mutate_design, record_repair, request_job, normalize_all, plan, begin,
  evaluate_actual, verify, close,
}
use rintel_core.Lifecycle.Commands.Soundness.{
  IsStep, IsSound, HasMatched, IsVerified, can_move, only-In, require_state-In, draft-IsSound,
  keeps-IsSound, normalized-IsMet, normalized-IsAnswered, draft-can_move,
}

abandon_move : (s : ChangeState) → is_terminal s ≡ false → can_move s abandoned ≡ true
abandon_move s h = ground (arith, h)

evaluated-IsStep :
    (codec : Codec) (x : Context) (c : DesignChange) (e : ExpectedActual) (r : LvsResult)
    → c.state ≡ implementing
    → drc_acceptable c ≡ true
    → is_recorded (implementation_of c).observation_status ≡ true
    → IsStep x.now c (evaluated codec x c e r)
unfolding IsSound
evaluated-IsStep codec x c e r s a o = elim (Bool-cases (is_match codec x c e r)) [
  | inl q ↦ rw q (refl, rw s refl, (a, ground (arith, q), ground (arith, q), o))
  | inr q ↦ rw q (refl, rw s refl, a)
]

module _ (codec : Codec) (x : Context) (c : DesignChange) {d : DesignChange} where
  begin-IsStep : (s : Fields) → begin codec x c s ≡ ok d → IsStep x.now c d
  unfolding begin IsSound
  begin-IsStep s h =
      let p = require_state-In c (planned ∷ []) _ h in
      let q = after_raise (not (drc_acceptable c)) design_drc_not_acceptable _ p.1 in
      ok-subst (IsStep x.now c) q.1 (refl, rw (only-In p.0) refl, ground (arith, q.0))

  plan-IsStep :
      (cs : List Fields) (a f : Option DesignRef) → plan codec x c cs a f ≡ ok d → IsStep x.now c d
  unfolding plan IsSound
  plan-IsStep cs a f h =
      let p = require_state-In c (opened ∷ planned ∷ []) _ h in
      let (claims, q, l) = after (normalize_all c cs) _ p.1 in
      ok-subst (IsStep x.now c) l (refl, (draft-can_move p.0).0, tt)

  mutate_design-IsStep : (m : Mutation) → mutate_design codec x c m ≡ ok d → IsStep x.now c d
  unfolding mutate_design IsSound
  mutate_design-IsStep m h =
      let p = require_state-In c (opened ∷ planned ∷ []) _ h in
      let (r, q, k) = after (apply_design_mutation codec x c m) _ p.1 in
      let (e, t, l) = after (of_plane codec x c m r) _ k in
      ok-subst (IsStep x.now c) l
        (refl, (draft-can_move p.0).1, draft-IsSound c e (suc c.version) x.now p.0)

  record_repair-IsStep :
      (r : RepairApplication) → record_repair codec x c r ≡ ok d → IsSound c → IsStep x.now c d
  unfolding record_repair
  record_repair-IsStep r h k =
      let p = require_state-In c (implementing ∷ []) _ h in
      let s = only-In p.0 in
      ok-subst (IsStep x.now c) p.1 (refl, rw s refl, keeps-IsSound c _ s s refl k)

  request_job-IsStep :
      (id : String) → request_job codec x c id ≡ ok d → IsSound c → IsStep x.now c d
  unfolding request_job
  request_job-IsStep id h k =
      let p = require_state-In c (implementing ∷ []) _ h in
      let s = only-In p.0 in
      let (u, q, l) = after (no_prior_job codec x c (open_link c)) _ p.1 in
      let (j, t, m) = after (index_job x id c.repo_id) _ l in
      let n = after_raise (not (j.status == "pending")) index_job_not_pending _ m in
      ok-subst (IsStep x.now c) n.1 (refl, rw s refl, keeps-IsSound c _ s s refl k)

  adopt-IsStep :
      (id : String) (rs : List Relation) → adopt x c id rs ≡ ok d → IsSound c → IsStep x.now c d
  unfolding adopt
  adopt-IsStep id rs h k =
      let p = require_state-In c (implementing ∷ []) _ h in
      let s = only-In p.0 in
      let (u, q, l) = after (proved_result x c id) _ p.1 in
      let (j, t, m) = after (adopt_result x c rs u) _ l in
      ok-subst (IsStep x.now c) m (refl, rw s refl, keeps-IsSound c _ s s refl k)

  evaluate_actual-IsStep : evaluate_actual codec x c ≡ ok d → IsSound c → IsStep x.now c d
  unfolding evaluate_actual IsSound
  evaluate_actual-IsStep h k =
      let p = require_state-In c (implementing ∷ []) _ h in
      let s = only-In p.0 in
      let a : drc_acceptable c ≡ true = rw s at k in
      let q =
        after_raise (not (is_recorded (implementation_of c).observation_status)) reindex_required _
          p.1 in
      let (u, t, l) = after (require_actual_current x c) _ q.1 in
      let (v, m, n) = after (convert_values c) _ l in
      let (r, w, o) = after (x.lvs_runner c) _ n in
      ok-subst (IsStep x.now c) o (
        evaluated-IsStep codec x c (evaluate codec x c (evidence_revision codec x c)) r s a
          (ground (arith, q.0)))

  verify-IsStep :
      (rs : List CriterionResult) → verify codec x c rs ≡ ok d → IsSound c → IsStep x.now c d
  unfolding verify IsSound
  verify-IsStep rs h k =
      let p = require_state-In c (evidence_matched ∷ []) _ h in
      let s = only-In p.0 in
      let a : HasMatched c = rw s at k in
      let (u, t, l) = after (require_actual_current x c) _ p.1 in
      let q = after_raise (any (is_lacking rs) c.acceptance_criteria) verification_incomplete _ l in
      let r =
        after_raise (not (all (is_proved codec x c rs) c.acceptance_criteria)) test_receipt_required
          _ q.1 in
      let met = normalized-IsMet rs c.acceptance_criteria q.0 in
      let one = normalized-IsAnswered rs c.acceptance_criteria in
      ok-subst (IsStep x.now c) r.1 (refl, rw s refl, (a, met, one))

  close-IsStep : (rules : Fields) → close codec x c rules ≡ ok d → IsSound c → IsStep x.now c d
  unfolding close IsSound assert_closable failed_checks
  close-IsStep rules h k =
      let p = require_state-In c (verified ∷ []) _ h in
      let s = only-In p.0 in
      let a : IsVerified c = rw s at k in
      let (u, t, l) = after (require_actual_current x c) _ p.1 in
      let (v, q, m) = after (closable codec x c) _ l in
      let n : is_nil c.verification ≡ false = ground (arith, q) in
      ok-subst (IsStep x.now c) m
        (refl, rw s refl, (a, n, (close_receipt_of codec x c rules, refl, refl, refl, refl)))

  abandon-IsStep :
      (let r : Result Code DesignChange = ok (abandon codec x c) in r ≡ ok d)
      → is_terminal c.state ≡ false
      → IsStep x.now c d
  unfolding abandon IsSound
  abandon-IsStep h n = ok-subst (IsStep x.now c) h (refl, abandon_move c.state n, tt)

  refuse_reindex-err : refuse_reindex codec x c ≡ ok d → ⊥
  unfolding refuse_reindex
  refuse_reindex-err h = let p = require_state-In c (implementing ∷ []) _ h in absurd cc

  pub act-IsStep :
      (k : Action)
      → act codec x c k ≡ ok d
      → is_terminal c.state ≡ false
      → IsSound c
      → IsStep x.now c d
  unfolding act
  act-IsStep (plan_change cs a f) h n i = plan-IsStep cs a f h
  act-IsStep (design_mutation m) h n i = mutate_design-IsStep m h
  act-IsStep (begin_implementation s) h n i = begin-IsStep s h
  act-IsStep (record_repair_application r) h n i = record_repair-IsStep r h i
  act-IsStep record_reindex h n i = absurd (refuse_reindex-err h)
  act-IsStep run_reindex h n i = absurd (refuse_reindex-err h)
  act-IsStep (request_reindex id) h n i = request_job-IsStep id h i
  act-IsStep (adopt_index_job id rs) h n i = adopt-IsStep id rs h i
  act-IsStep evaluate_expected_actual h n i = evaluate_actual-IsStep h i
  act-IsStep (verify_change rs) h n i = verify-IsStep rs h i
  act-IsStep (close_change rules) h n i = close-IsStep rules h i
  act-IsStep (abandon_change r) h n i = abandon-IsStep h n

no_reason : (es : List Code) {u : Unit {0}} → raise_first es ≡ ok u → es ≡ []
no_reason [] h = refl
no_reason (e ∷ es) h = absurd cc

-- what a command that returns has passed
pub apply_command-act :
    (codec : Codec) (x : Context) (c : DesignChange) (k : Command) {d : DesignChange}
    → apply_command codec x c k ≡ ok d
    → (evaluate_command x c k ≡ [])
      × (is_superseded c k ≡ false)
      × (is_other_revision c k ≡ false)
      × (is_terminal c.state ≡ false)
      × (act codec x c k.action ≡ ok d)
unfolding apply_command
apply_command-act codec x c k h =
    let (u, p, l) = after (raise_first (evaluate_command x c k)) _ h in
    let q = after_raise (is_superseded c k) stale_preflight _ l in
    let r = after_raise (is_other_revision c k) stale_design_revision _ q.1 in
    let s = after_raise (is_terminal c.state) terminal_change _ r.1 in
    (no_reason (evaluate_command x c k) p, q.0, r.0, s.0, s.1)

-- A command that returns makes a step of the documented lifecycle: its version is the next one, the
-- move of its state is one of the lifecycle's, what the change was opened with stays, and a sound
-- change stays sound.
pub apply_command-IsStep :
    (codec : Codec) (x : Context) (c : DesignChange) (k : Command) (d : DesignChange)
    → apply_command codec x c k ≡ ok d
    → IsSound c
    → IsStep x.now c d
apply_command-IsStep codec x c k d h i =
    let (p, q, r, s, t) = apply_command-act codec x c k h in act-IsStep codec x c k.action t s i
