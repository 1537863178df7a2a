-- ===== src/Examples/Changing.antt =====
-- A design change from its opening to its close: one planned call, one test, and an approval.
mod Facts
use rintel_core.Prelude.{
  ◌≡◌, refl, ℕ, String, Bool, true, false, Option, none, some, List, [], ◌∷◌, Result, ok, err, ◌==◌,
  string_eq, if◌then◌else◌, is_blank,
}
use rintel_core.Prelude.Dict.{lookup, insert as put}
use rintel_core.Prelude.Json.{Fields, text, array, object, boolean, texts, dict, get_field}
use rintel_core.Evidence.Wire.{Codec}
use rintel_core.Examples.Samples.{sample_codec}
use rintel_core.Lifecycle.Models.{
  opened, planned, implementing, verified, closed, state_eq, matched, AcceptanceCriterion, Relation,
  pending, CriterionResult, DesignChange, Action, plan_change, begin_implementation,
  request_reindex, adopt_index_job, evaluate_expected_actual, verify_change, close_change,
  abandon_change, Command, Code, approval_required, invalid_design_plane,
}
use rintel_core.Lifecycle.Context.{
  Context, Snapshot, Edge, Node, IndexJob, JobResult, TestReceipt, ApprovalReceipt,
}
use rintel_core.Lifecycle.Comparison.{expected_facts, actual_relations, fact_key}
use rintel_core.Lifecycle.Repository.{Store, Opening, fresh, open_change, run_command}
use rintel_core.Lifecycle.Repository.History.{
  Step, opens, applies, Reach, beginning, continued, empty,
}

abbrev call : Relation
call = record { kind = "CALLS"; source = "f"; target = "g" }

abbrev snapshot : String → Option String → ℕ → Option String → Snapshot
snapshot id parent now run = record {
  id = id;
  repo_id = "r";
  parent_id = parent;
  publication_status = "published";
  created_at = now;
  run_id = run;
}

abbrev base : Snapshot
base = snapshot "s0" none 1 none

abbrev indexed : Snapshot
indexed = snapshot "s1" (some "s0") 2 (some "run1")

abbrev edges : String → List Edge
edges s = if s == "s1" then record { id = "e1"; relation = call } ∷ [] else []

abbrev pending_job : IndexJob
pending_job = record { repo_id = "r"; kind = "index"; status = "pending"; result = none }

abbrev done_job : IndexJob
done_job = record {
  repo_id = "r";
  kind = "index";
  status = "done";
  result = some (record { repo_id = "r"; run_id = "run1"; snapshot_id = "s1"; changed_files = [] });
}

abbrev test_receipt : TestReceipt
test_receipt = record {
  id = "t1";
  result = "PASS";
  design_revision = "d2";
  canonical_revision = "s1";
}

abbrev pub approval : ApprovalReceipt
approval = record {
  timestamp = 90;
  decision = "APPROVE";
  design_revision = "d2";
  change_version = 7;
  principal_id = "p";
  auth_session_id = "a";
  instance_id = "i";
}

abbrev context : ℕ → String → List Snapshot → IndexJob → Context
context now new_id snapshots job = record {
  now = now;
  new_id = new_id;
  snapshots = snapshots;
  edges = edges;
  nodes = λ s. [];
  job_lookup = some (λ id. some job);
  lvs_runner = λ c. ok (record { overall_status = "MATCH" });
  recursion_fails = λ es. false;
  mutate = λ c m. err invalid_design_plane;
  absence_certified = λ s r. false;
  test_receipts = test_receipt ∷ [];
  approval_receipts = approval ∷ [];
}

abbrev pub early : Context
early = context 10 "d1" (base ∷ []) pending_job

abbrev pub planning : Context
planning = context 20 "d2" (base ∷ []) pending_job

abbrev pub late : Context
late = context 100 "d3" (base ∷ indexed ∷ []) done_job

abbrev criterion : AcceptanceCriterion
criterion = record { id = "a1"; kind = "test"; required = true }

abbrev pub opening : Opening
opening = record {
  repo_id = "r";
  base_canonical_revision = "s0";
  intent = " call g ";
  scope = dict (("approval_required", boolean true) ∷ []);
  acceptance_criteria = criterion ∷ [];
  actor = "dev";
  architecture_proposal_ref = none;
  flow_model_ref = none;
}

abbrev claim : Fields
claim = dict (
    ("kind", text "planned_relation")
    ∷ ("source", text "f")
    ∷ ("target", text "g")
    ∷ ("justification", text "f needs g")
    ∷ ("support", array (texts ("doc" ∷ [])))
    ∷ (
      "expected_evidence",
      object (dict (("kind", text "CALLS") ∷ ("source", text "f") ∷ ("target", text "g") ∷ [])),
    )
    ∷ [])

abbrev pub command : ℕ → Action → Command
command version action = record {
  actor = "dev";
  action = action;
  expected_version = some version;
  expected_design_revision = none;
}

abbrev passed : CriterionResult
passed = record { criterion_id = "a1"; status = "PASS"; evidence_refs = "t1" ∷ [] }

abbrev pub plan_it : Command
plan_it = command 1 (plan_change (claim ∷ []) none none)

abbrev pub begin_it : Command
begin_it = command 2 (begin_implementation (dict []))

abbrev pub request_it : Command
request_it = command 3 (request_reindex "j1")

abbrev pub adopt_it : Command
adopt_it = command 4 (adopt_index_job "j1" (call ∷ []))

abbrev pub evaluate_it : Command
evaluate_it = command 5 evaluate_expected_actual

abbrev pub verify_it : Command
verify_it = command 6 (verify_change (passed ∷ []))

abbrev pub close_it : Command
close_it = command 7 (close_change (dict []))

abbrev pub abandon_it : Command
abandon_it = command 1 (abandon_change "no time")

abbrev pub is_ok : Result Code (DesignChange × Store) → Bool
is_ok (ok p) = true
is_ok (err e) = false

abbrev pub store_of : Result Code (DesignChange × Store) → Store
store_of (ok (c, s)) = s
store_of (err e) = empty

abbrev ran : Context → Command → Store → Store
ran x k s = store_of (run_command sample_codec x "c1" k s)

abbrev pub opened_store : Store
opened_store = store_of (open_change early "c1" [] opening empty)

abbrev pub planned_store : Store
planned_store = ran planning plan_it opened_store

abbrev pub implementing_store : Store
implementing_store = ran planning begin_it planned_store

abbrev pub requested_store : Store
requested_store = ran planning request_it implementing_store

abbrev pub adopted_store : Store
adopted_store = ran late adopt_it requested_store

abbrev pub matched_store : Store
matched_store = ran late evaluate_it adopted_store

abbrev pub verified_store : Store
verified_store = ran late verify_it matched_store

abbrev pub closed_store : Store
closed_store = ran late close_it verified_store

-- the change of a store
abbrev pub change_in : Store → DesignChange
change_in s = elim (lookup "c1" s.changes) [ none ↦ fresh early "c1" [] opening | some c ↦ c ]

pub opening-Step :
    (x : Context) (id : String) (s : Store) (r : Result Code (DesignChange × Store))
    → open_change x id [] opening s ≡ r
    → is_ok r ≡ true
    → Step sample_codec s (store_of r)
opening-Step x id s (ok (c, t)) h e = opens x id [] opening c h
opening-Step x id s (err f) h e = absurd cc

-- a command that returns is a step to its store
ran-Step :
    (x : Context) (k : Command) (s : Store) (r : Result Code (DesignChange × Store))
    → run_command sample_codec x "c1" k s ≡ r
    → is_ok r ≡ true
    → Step sample_codec s (store_of r)
ran-Step x k s (ok (c, t)) h e = applies x "c1" k c h
ran-Step x k s (err f) h e = absurd cc

pub opened-Reach : Reach sample_codec empty opened_store
unfolding run_command open_change lookup put is_blank get_field dict texts expected_facts
    actual_relations fact_key
opened-Reach =
    continued beginning
      (opening-Step early "c1" empty (open_change early "c1" [] opening empty) refl refl)

pub planned-Reach : Reach sample_codec empty planned_store
unfolding run_command open_change lookup put is_blank get_field dict texts expected_facts
    actual_relations fact_key
planned-Reach = continued opened-Reach (
    ran-Step planning plan_it opened_store
      (run_command sample_codec planning "c1" plan_it opened_store) refl refl)

pub implementing-Reach : Reach sample_codec empty implementing_store
unfolding run_command open_change lookup put is_blank get_field dict texts expected_facts
    actual_relations fact_key
implementing-Reach = continued planned-Reach (
    ran-Step planning begin_it planned_store
      (run_command sample_codec planning "c1" begin_it planned_store) refl refl)

pub requested-Reach : Reach sample_codec empty requested_store
unfolding run_command open_change lookup put is_blank get_field dict texts expected_facts
    actual_relations fact_key
requested-Reach = continued implementing-Reach (
    ran-Step planning request_it implementing_store
      (run_command sample_codec planning "c1" request_it implementing_store) refl refl)

pub adopted-Reach : Reach sample_codec empty adopted_store
unfolding run_command open_change lookup put is_blank get_field dict texts expected_facts
    actual_relations fact_key
adopted-Reach = continued requested-Reach (
    ran-Step late adopt_it requested_store
      (run_command sample_codec late "c1" adopt_it requested_store) refl refl)

pub matched-Reach : Reach sample_codec empty matched_store
unfolding run_command open_change lookup put is_blank get_field dict texts expected_facts
    actual_relations fact_key
matched-Reach = continued adopted-Reach (
    ran-Step late evaluate_it adopted_store
      (run_command sample_codec late "c1" evaluate_it adopted_store) refl refl)

pub verified-Reach : Reach sample_codec empty verified_store
unfolding run_command open_change lookup put is_blank get_field dict texts expected_facts
    actual_relations fact_key
verified-Reach = continued matched-Reach (
    ran-Step late verify_it matched_store
      (run_command sample_codec late "c1" verify_it matched_store) refl refl)

pub closed-Reach : Reach sample_codec empty closed_store
unfolding run_command open_change lookup put is_blank get_field dict texts expected_facts
    actual_relations fact_key
closed-Reach = continued verified-Reach (
    ran-Step late close_it verified_store
      (run_command sample_codec late "c1" close_it verified_store) refl refl)
