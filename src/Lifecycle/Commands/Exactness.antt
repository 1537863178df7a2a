-- ===== src/Lifecycle/Commands/Exactness.antt =====
-- The gate of rintel/design_lifecycle/service.py against its commands: what `evaluate_command` allows,
-- `apply_command` does not refuse, for the commands that only the change and its context decide.
use rintel_core.Prelude.{
  String, Bool, true, false, not, Option, List, [], ◌∷◌, ◌++◌, contains, Result, ok, err, all,
  Bool-cases, inl, inr, ◌≡◌, refl, arith, ◌&&◌, ◌==◌, string_eq,
}
use rintel_core.Prelude.Json.{Fields}
use rintel_core.Evidence.Wire.{Codec}
use rintel_core.Lifecycle.Models.{
  opened, planned, implementing, verified, state_eq, DesignRef, RepairApplication, DesignChange,
  Action, plan_change, design_mutation, begin_implementation, record_repair_application,
  record_reindex, run_reindex, request_reindex, adopt_index_job, evaluate_expected_actual,
  verify_change, close_change, abandon_change, Command, Code, invalid_state,
  design_drc_not_acceptable, reindex_required,
}
use rintel_core.Lifecycle.Context.{Context, implementation_of, require_actual_current}
use rintel_core.Lifecycle.Gates.{
  Gate, to_plan, to_begin, to_evaluate, to_close, allowed_states, checks, preflight, reasons_behind,
  reason_of, close_reasons, refuse_close, failed_checks, needs_approval, is_approved,
  assert_closable, require_state, is_terminal, unless, is_recorded, drc_acceptable, is_superseded,
  evaluate_command, action_reasons, stale_reasons,
}
use rintel_core.Lifecycle.Values.Conversions.{
  is_well_formed, is_comparable, normalize_all-ok, convert_values-ok,
}
use rintel_core.Lifecycle.Commands.{
  act, plan, begin, record_repair, evaluate_actual, close, abandon, closable, apply_command,
  is_other_revision,
}
use rintel_core.Lifecycle.Commands.Soundness.{IsSound, IsVerified}

append-nil : {A : Type 0} (xs ys : List A) → xs ++ ys ≡ [] → (xs ≡ []) × (ys ≡ [])
append-nil [] ys h = (refl, h)
append-nil (x ∷ xs) ys h = absurd cc

unless-nil : (b : Bool) (e : Code) → unless b e ≡ [] → b ≡ true
unless-nil true e h = refl
unless-nil false e h = absurd cc

reason_of-nil : (r : Result Code (Unit {0})) → reason_of r ≡ [] → r ≡ ok tt
reason_of-nil (ok u) h = refl
reason_of-nil (err e) h = absurd cc

reasons_behind-nil :
    (r : Result Code (Unit {0})) (es : List Code)
    → reasons_behind r es ≡ []
    → (r ≡ ok tt) × (es ≡ [])
reasons_behind-nil (ok u) es h = (refl, h)
reasons_behind-nil (err e) es h = absurd cc

refuse_close-nil :
    (es : List Code) (b : Bool) → close_reasons (refuse_close es b) ≡ [] → refuse_close es b ≡ ok tt
refuse_close-nil (e ∷ es) b h = absurd cc
refuse_close-nil [] true h = absurd cc
refuse_close-nil [] false h = refl

module _ (x : Context) (c : DesignChange) where
  closable-nil : close_reasons (assert_closable x c) ≡ [] → assert_closable x c ≡ ok tt
  unfolding assert_closable
  closable-nil h = refuse_close-nil (failed_checks c) (needs_approval c && not (is_approved x c)) h

  preflight-nil :
      (g : Gate)
      → preflight x c g ≡ []
      → is_terminal c.state ≡ false
      → (require_state c (allowed_states g) ≡ ok tt) × (checks x c g ≡ [])
  unfolding preflight
  preflight-nil g h t = reasons_behind-nil _ (checks x c g) (rw t at h)

  stale_reasons-nil :
      is_recorded (implementation_of c).observation_status ≡ true
      → stale_reasons x c ≡ []
      → require_actual_current x c ≡ ok tt
  stale_reasons-nil o h = reason_of-nil (require_actual_current x c) (rw o at h)

  evaluate_command-nil :
      (k : Command)
      → evaluate_command x c k ≡ []
      → (is_superseded c k ≡ false)
        × (is_terminal c.state ≡ false)
        × (action_reasons x c k.action ≡ [])
  unfolding evaluate_command
  evaluate_command-nil k h = elim (Bool-cases (is_superseded c k)) [
    | inl s ↦ absurd (ground (arith, rw s at h))
    | inr s ↦ elim (Bool-cases (is_terminal c.state)) [
      | inl t ↦ absurd (ground (arith, rw (s, t) at h))
      | inr t ↦ (s, t, rw (s, t) at h)
    ]
  ]

abbrev pub is_returned : {A : Type 0} → Result Code A → Bool
is_returned (ok a) = true
is_returned (err e) = false

pub is_returned-ok : {A : Type 0} (r : Result Code A) → is_returned r ≡ true → (a : A) × (r ≡ ok a)
is_returned-ok (ok a) h = (a, refl)
is_returned-ok (err e) h = absurd cc

-- The commands that nothing but the change and its context decides: a plan whose claims are well
-- formed, an evaluation of a change whose values are of the types of a comparison and whose check of
-- the layout returns, and the beginning, a repair, the close and the abandoning.
unfoldable pub is_decided : Context → DesignChange → Action → Bool
is_decided x c (plan_change claims a f) = all is_well_formed claims
is_decided x c (begin_implementation scope) = true
is_decided x c (record_repair_application r) = true
is_decided x c evaluate_expected_actual = is_comparable c && is_returned (x.lvs_runner c)
is_decided x c (close_change rules) = true
is_decided x c (abandon_change reason) = true
is_decided x c _ = false

module _ (codec : Codec) (x : Context) (c : DesignChange) where
  abbrev Returns : Action → Type 0
  Returns a = (d : DesignChange) × (act codec x c a ≡ ok d)

  abandon-Returns : (reason : String) → Returns (abandon_change reason)
  unfolding act
  abandon-Returns reason = (abandon codec x c, refl)

  plan-Returns :
      (cs : List Fields) (a f : Option DesignRef)
      → require_state c (opened ∷ planned ∷ []) ≡ ok tt
      → all is_well_formed cs ≡ true
      → Returns (plan_change cs a f)
  unfolding act plan
  plan-Returns cs a f r n = let (claims, e) = normalize_all-ok c cs n in rw (r, e) (_, refl)

  begin-Returns :
      (s : Fields)
      → require_state c (planned ∷ []) ≡ ok tt
      → drc_acceptable c ≡ true
      → Returns (begin_implementation s)
  unfolding act begin
  begin-Returns s r d = rw (r, d) (_, refl)

  repair-Returns :
      (r : RepairApplication) → c.state ≡ implementing → Returns (record_repair_application r)
  unfolding act record_repair require_state
  repair-Returns r s = rw s (_, refl)

  evaluate-Returns :
      require_state c (implementing ∷ []) ≡ ok tt
      → is_recorded (implementation_of c).observation_status ≡ true
      → require_actual_current x c ≡ ok tt
      → is_comparable c ≡ true
      → is_returned (x.lvs_runner c) ≡ true
      → Returns evaluate_expected_actual
  unfolding act evaluate_actual
  evaluate-Returns r o a v l =
      let e = convert_values-ok c v in
      let (m, f) = is_returned-ok (x.lvs_runner c) l in rw (r, o, a, e, f) (_, refl)

  close-Returns :
      (rules : Fields)
      → require_state c (verified ∷ []) ≡ ok tt
      → require_actual_current x c ≡ ok tt
      → assert_closable x c ≡ ok tt
      → Returns (close_change rules)
  unfolding act close
  close-Returns rules r a b = rw (r, a, b, closable) (_, refl)

  verified_is_recorded :
      require_state c (verified ∷ []) ≡ ok tt
      → IsSound c
      → is_recorded (implementation_of c).observation_status ≡ true
  unfolding IsSound require_state
  verified_is_recorded r i = elim (Bool-cases (contains c.state (verified ∷ []))) [
    | inl q ↦
        let s : c.state ≡ verified = ground (arith, q) in let v : IsVerified c = rw s at i in v.0.3
    | inr q ↦ absurd (ground (arith, rw q at r))
  ]

  action-Returns :
      (a : Action)
      → is_decided x c a ≡ true
      → is_terminal c.state ≡ false
      → action_reasons x c a ≡ []
      → IsSound c
      → Returns a
  unfolding checks is_decided
  action-Returns (plan_change cs a f) d t h i =
      plan-Returns cs a f (preflight-nil x c to_plan h t).0 d
  action-Returns (begin_implementation s) d t h i =
      let (r, k) = preflight-nil x c to_begin h t in
      begin-Returns s r (unless-nil (drc_acceptable c) design_drc_not_acceptable k)
  action-Returns (record_repair_application r) d t h i = repair-Returns r (
      ground (
        arith,
        unless-nil (c.state == implementing) invalid_state h,
        state_eq.same_iff c.state implementing,
      ))
  action-Returns evaluate_expected_actual d t h i =
      let (r, k) = preflight-nil x c to_evaluate h t in
      let (m, n) = append-nil _ (stale_reasons x c) k in
      let o =
        unless-nil (is_recorded (implementation_of c).observation_status) reindex_required m in
      evaluate-Returns r o (stale_reasons-nil x c o n) (ground (arith, d)) (ground (arith, d))
  action-Returns (close_change rules) d t h i =
      let (r, k) = preflight-nil x c to_close h t in
      let (m, n) = append-nil (stale_reasons x c) _ k in
      close-Returns rules r (stale_reasons-nil x c (verified_is_recorded r i) m)
        (closable-nil x c n)
  action-Returns (abandon_change reason) d t h i = abandon-Returns reason
  action-Returns (design_mutation m) d t h i = absurd cc
  action-Returns record_reindex d t h i = absurd cc
  action-Returns run_reindex d t h i = absurd cc
  action-Returns (request_reindex id) d t h i = absurd cc
  action-Returns (adopt_index_job id rs) d t h i = absurd cc
  action-Returns (verify_change rs) d t h i = absurd cc

  -- The gate is exact for a sound change: a plan with well formed claims, the beginning, a repair, an
  -- evaluation of values of its types whose check of the layout returns, the close or the abandoning that
  -- `evaluate_command` has no reason against is not refused by `apply_command`, when it names no other
  -- design revision.
  pub evaluate_command-Returns :
      (k : Command)
      → is_decided x c k.action ≡ true
      → IsSound c
      → evaluate_command x c k ≡ []
      → is_other_revision c k ≡ false
      → (d : DesignChange) × (apply_command codec x c k ≡ ok d)
  unfolding apply_command
  evaluate_command-Returns k d i h o =
      let (s, t, a) = evaluate_command-nil x c k h in
      let (e, r) = action-Returns k.action d t a i in (e, rw (h, s, o, t) r)
