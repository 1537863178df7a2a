-- ===== src/Examples/Changing/Facts.antt =====
-- The theorems on design changes, at the change of the parent module and at small plans.
use rintel_core.Prelude.{
  ◌≡◌, ◌↔◌, refl, String, Bool, true, false, Option, some, [], ◌∷◌, Result, ok, err, is_blank, In,
  inl, inr, ◌⊎◌, ◌≢◌,
}
use rintel_core.Prelude.Dict.{lookup, insert as put}
use rintel_core.Prelude.Json.{dict, texts, get_field}
use rintel_core.Examples.Samples.{sample_codec}
use rintel_core.Examples.Changing.{
  opening-Step, is_ok, store_of, early, planning, late, opening, plan_it, close_it, abandon_it,
  opened_store, planned_store, adopted_store, verified_store, closed_store, change_in,
  verified-Reach, closed-Reach,
}
use rintel_core.Lifecycle.Models.{closed, abandoned, state_eq, Relation, DesignChange, Code}
use rintel_core.Lifecycle.Context.{Context, ApprovalReceipt, Edge}
use rintel_core.Lifecycle.Gates.{is_approved, latest_approval}
use rintel_core.Lifecycle.Comparison.{
  expected_facts, actual_relations, fact_key, expected_keys, base_relations, is_searched,
}
use rintel_core.Lifecycle.Comparison.Matching.{Stands, evaluate-matched}
use rintel_core.Lifecycle.DesignDrc.{Edges, has_cycle}
use rintel_core.Lifecycle.DesignDrc.Cycle.{Way, has_cycle-total}
use rintel_core.Lifecycle.DesignDrc.Search.{has_cycle_iff}
use rintel_core.Lifecycle.Commands.{apply_command}
use rintel_core.Lifecycle.Commands.Soundness.{IsSound, IsStep, IsClosed}
use rintel_core.Lifecycle.Commands.Steps.{apply_command-IsStep}
use rintel_core.Lifecycle.Commands.Exactness.{is_decided}
use rintel_core.Lifecycle.Receipts.{Authorization, record_approval, file_receipt}
use rintel_core.Lifecycle.Receipts.Approval.{record_approval-is_approved, close-is_approved}
use rintel_core.Lifecycle.Repository.{Store, open_change, run_command}
use rintel_core.Lifecycle.Repository.Ledger.{IsLedger}
use rintel_core.Lifecycle.Repository.History.{
  Step, Reach, empty, Reach-IsLedger, continued, beginning, opens,
}
use rintel_core.Lifecycle.Repository.Outcomes.{
  Reach-IsClosed, Step-terminal, run_command-Returns, Reach-closed_ne,
}
use rintel_core.Lifecycle.Repository.Interleaving.{
  Pending, Moves, rests, moves, opens_one, reads, writes, new_world, Moves-Reach,
}

abbrev closed_change : DesignChange
closed_change = change_in closed_store

Reach-IsClosed_example : IsClosed closed_change
unfolding run_command open_change lookup put is_blank get_field dict texts expected_facts
    actual_relations fact_key
Reach-IsClosed_example = Reach-IsClosed "c1" closed_change closed-Reach refl refl

Reach-IsLedger_example : IsLedger verified_store
Reach-IsLedger_example = Reach-IsLedger verified-Reach

run_command-Returns_example :
    (d : DesignChange) × (t : Store) × (run_command sample_codec late "c1" close_it verified_store
      ≡ ok (d, t))
    × (lookup "c1" t.changes ≡ some d)
unfolding run_command open_change lookup put is_blank get_field dict texts expected_facts
    actual_relations fact_key is_decided
run_command-Returns_example =
    run_command-Returns late "c1" close_it (change_in verified_store) verified-Reach refl refl refl
      refl

abbrev early_again : Context
early_again = record early { new_id = "d9" }

abbrev opened_again : Result Code (DesignChange × Store)
opened_again = open_change early_again "c2" [] opening closed_store

another : Step sample_codec closed_store (store_of opened_again)
unfolding run_command open_change lookup put is_blank get_field dict texts expected_facts
    actual_relations fact_key
another = opening-Step early_again "c2" closed_store opened_again refl refl

Step-terminal_example : lookup "c1" (store_of opened_again).changes ≡ some closed_change
unfolding run_command open_change lookup put is_blank get_field dict texts expected_facts
    actual_relations fact_key
Step-terminal_example =
    Step-terminal "c1" closed_change another (Reach-IsLedger closed-Reach) refl refl

evaluate-matched_example :
    ((r : Relation)
      → In r (
          expected_keys late (change_in adopted_store) "s1" (
            expected_facts sample_codec (change_in adopted_store).design_revision.expected_changes))
      → Stands late
          (change_in adopted_store)
          "s1"
          (expected_facts sample_codec (change_in adopted_store).design_revision.expected_changes)
          r)
    × ((e : Edge)
        → In e (late.edges "s1")
        → is_searched late
            (change_in adopted_store)
            "s1"
            (expected_facts sample_codec (change_in adopted_store).design_revision.expected_changes)
            e
          ≡ true
        → In e.relation (
            expected_keys late (change_in adopted_store) "s1" (
              expected_facts sample_codec
                (change_in adopted_store).design_revision.expected_changes))
          ⊎ In e.relation (
              base_relations late (change_in adopted_store) "s1" (
                expected_facts sample_codec
                  (change_in adopted_store).design_revision.expected_changes)))
unfolding run_command open_change lookup put is_blank get_field dict texts expected_facts
    actual_relations fact_key
evaluate-matched_example = evaluate-matched sample_codec late (change_in adopted_store) "s1" refl

abbrev ring : Edges
ring = ("a", "b") ∷ ("b", "c") ∷ ("c", "a") ∷ []

has_cycle-total_example : (b : Bool) × (has_cycle ring ≡ some b)
has_cycle-total_example = has_cycle-total ring

has_cycle_iff_example : (has_cycle ring ≡ some true) ↔ ((n : String) × Way ring n n)
has_cycle_iff_example = has_cycle_iff ring

apply_command-IsStep_example : IsStep 20 (change_in opened_store) (change_in planned_store)
unfolding run_command open_change lookup put is_blank get_field dict texts expected_facts
    actual_relations fact_key IsSound
apply_command-IsStep_example =
    apply_command-IsStep sample_codec planning (change_in opened_store) plan_it
      (change_in planned_store) refl tt

abbrev closing : Result Code DesignChange
closing = apply_command sample_codec late (change_in verified_store) close_it

abbrev applied_change : Result Code DesignChange → DesignChange
applied_change (ok c) = c
applied_change (err e) = closed_change

abbrev is_applied : Result Code DesignChange → Bool
is_applied (ok c) = true
is_applied (err e) = false

applied : (r : Result Code DesignChange) → is_applied r ≡ true → r ≡ ok (applied_change r)
applied (ok c) h = refl
applied (err e) h = absurd cc

close-is_approved_example :
    (r : ApprovalReceipt) × (latest_approval late (change_in verified_store) ≡ some r)
    × (r.decision ≡ "APPROVE")
    × (r.change_version ≡ (change_in verified_store).version)
    × (r.design_revision ≡ (change_in verified_store).design_revision.id)
    × (r.principal_id ≢ "")
    × (r.auth_session_id ≢ "")
    × (r.instance_id ≢ "")
unfolding run_command open_change lookup put is_blank get_field dict texts expected_facts
    actual_relations fact_key
close-is_approved_example =
    close-is_approved sample_codec late (change_in verified_store) close_it (dict [])
      (applied_change closing) (applied closing refl) refl refl

abbrev owner : Authorization
owner = record {
  permission = "approve_design";
  principal_type = "LOCAL_OWNER";
  auth_method = "BOOTSTRAP_TOKEN";
  subject = "owner";
  policy_version = "1";
  authorization_id = "z";
  principal_id = "p";
  auth_session_id = "a";
  instance_id = "i";
}

abbrev find_owner : Option (String → DesignChange → Option Authorization)
find_owner = some (λ identity c. some owner)

abbrev second_approval : ApprovalReceipt
second_approval = record {
  timestamp = 100;
  decision = "APPROVE";
  design_revision = "d2";
  change_version = 7;
  principal_id = "p";
  auth_session_id = "a";
  instance_id = "i";
}

record_approval-is_approved_example :
    is_approved
      (record late { approval_receipts = file_receipt second_approval late.approval_receipts })
      (change_in verified_store)
    ≡ true
unfolding run_command open_change lookup put is_blank get_field dict texts expected_facts
    actual_relations fact_key record_approval
record_approval-is_approved_example =
    record_approval-is_approved late find_owner (change_in verified_store) "who" 7 second_approval
      (tt, tt) refl

-- two callers read the same change, and the one that writes first wins
abbrev planner : Pending
planner = record {
  context = planning;
  id = "c1";
  command = plan_it;
  before = change_in opened_store;
  after = change_in planned_store;
}

abbrev quitter : Pending
quitter = record {
  context = late;
  id = "c1";
  command = abandon_it;
  before = change_in opened_store;
  after = record (change_in opened_store) { state = abandoned; version = 2; updated_at = 100 };
}

two_callers :
    Moves sample_codec new_world
      (record { store = planned_store; pending = quitter ∷ planner ∷ [] })
unfolding run_command open_change lookup put is_blank get_field dict texts expected_facts
    actual_relations fact_key
two_callers =
    moves
      (moves
        (moves (moves rests (opens_one early "c1" [] opening (change_in opened_store) refl))
          (reads planner refl refl))
        (reads quitter refl refl))
      (writes planner (inr (inl refl)) refl)

Moves-Reach_example : Reach sample_codec empty planned_store
Moves-Reach_example = Moves-Reach two_callers

-- the change that is opened without a criterion
abbrev bare_opened : Result Code (DesignChange × Store)
bare_opened = open_change early "c1" [] (record opening { acceptance_criteria = [] }) empty

opened_bare :
    (r : Result Code (DesignChange × Store))
    → open_change early "c1" [] (record opening { acceptance_criteria = [] }) empty ≡ r
    → is_ok r ≡ true
    → Step sample_codec empty (store_of r)
opened_bare (ok (c, t)) h e = opens early "c1" [] (record opening { acceptance_criteria = [] }) c h
opened_bare (err f) h e = absurd cc

bare-Reach : Reach sample_codec empty (store_of bare_opened)
unfolding run_command open_change lookup put is_blank get_field dict texts expected_facts
    actual_relations fact_key
bare-Reach = continued beginning (opened_bare bare_opened refl refl)

Reach-closed_ne_example : (change_in (store_of bare_opened)).state ≢ closed
unfolding run_command open_change lookup put is_blank get_field dict texts expected_facts
    actual_relations fact_key
Reach-closed_ne_example =
    Reach-closed_ne "c1" (change_in (store_of bare_opened)) bare-Reach refl refl
