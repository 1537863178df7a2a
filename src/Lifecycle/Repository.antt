-- ===== src/Lifecycle/Repository.antt =====
-- rintel/design_lifecycle/repository.py, and the calls of service.py that write: the changes, their
-- revisions and the receipts of the commands. A failed transaction is rolled back, so it returns no
-- store. The serialized form of a change and the tables of coverage certificates are left out.
pub mod Ledger
pub mod History
pub mod Outcomes
pub mod Interleaving
use rintel_core.Prelude.{
  ℕ, suc, String, Bool, true, false, ◌&&◌, not, Option, none, some, List, [], ◌∷◌, any, keep,
  find_first, Result, ok, err, raise_if, ◌>>◌, ◌>>=◌, ◌==◌, nat_eq, string_eq, if◌then◌else◌,
  is_blank, strip,
}
use rintel_core.Prelude.Dict.{lookup, insert as put}
use rintel_core.Prelude.Json.{Fields}
use rintel_core.Evidence.Wire.{Codec}
use rintel_core.Lifecycle.Models.{
  ChangeState, opened, state_eq, DesignRef, AcceptanceCriterion, DesignRevision, previous,
  DesignChange, Action, plan_change, design_mutation, begin_implementation,
  record_repair_application, record_reindex, run_reindex, request_reindex, adopt_index_job,
  evaluate_expected_actual, verify_change, close_change, abandon_change, Command, Code,
  invalid_base_revision, intent_required, concurrent_update, change_not_found, change_exists,
  receipt_exists,
}
use rintel_core.Lifecycle.Context.{Context, find_snapshot}
use rintel_core.Lifecycle.Commands.{apply_command}

-- `LifecycleReceipt`
pub record Receipt : Type 0 where
  pub change_id : String
  pub sequence : ℕ
  pub command : String
  pub actor : String
  pub state_before : Option ChangeState
  pub state_after : ChangeState
  pub design_revision : String
  pub created_at : ℕ

-- the tables; the last receipt comes first
pub record Store : Type 0 where
  pub changes : List (String × DesignChange)
  pub revisions : List DesignRevision
  pub receipts : List Receipt

-- `_receipt`
unfoldable pub receipt_of : ℕ → DesignChange → ℕ → String → String → Option ChangeState → Receipt
receipt_of now c sequence command actor before = record {
  change_id = c.id;
  sequence = sequence;
  command = command;
  actor = actor;
  state_before = before;
  state_after = c.state;
  design_revision = c.design_revision.id;
  created_at = now;
}

abbrev pub is_same_entry : Receipt → Receipt → Bool
is_same_entry r q = q.change_id == r.change_id && q.sequence == r.sequence

-- `_append_receipt`, whose table has each sequence number of a change once
unfoldable pub append_receipt : Receipt → Store → Result Code Store
append_receipt r s =
    if any (is_same_entry r) s.receipts
    then err receipt_exists
    else ok (record s { receipts = r ∷ s.receipts })

abbrev pub has_revision : DesignRevision → Store → Bool
has_revision d s = any (λ (e : DesignRevision). e.id == d.id) s.revisions

-- the revision of the change, which is written when it is not there
abbrev pub keep_revision : DesignChange → Store → Store
keep_revision c s = record s {
  revisions =
      if has_revision c.design_revision s then s.revisions else c.design_revision ∷ s.revisions;
}

abbrev pub with_change : DesignChange → Store → Store
with_change c s = keep_revision c (record s { changes = put c.id c s.changes })

abbrev pub update_row : ℕ → DesignChange → Receipt → Store → Option DesignChange → Result Code Store
update_row version c r s none = err concurrent_update
update_row version c r s (some old) =
    if old.version == version then append_receipt r (with_change c s) else err concurrent_update

-- `LifecycleRepository.update`: the row must have the previous version
unfoldable pub update : ℕ → DesignChange → Receipt → Store → Result Code Store
unfolding append_receipt
update version c r s = update_row version c r s (lookup c.id s.changes)

abbrev pub insert_row : DesignChange → Receipt → Store → Option DesignChange → Result Code Store
insert_row c r s (some old) = err change_exists
insert_row c r s none =
    if has_revision c.design_revision s
    then err change_exists
    else append_receipt r (with_change c s)

-- `LifecycleRepository.insert`; the keys must be new
unfoldable pub insert : DesignChange → Receipt → Store → Result Code Store
unfolding append_receipt
insert c r s = insert_row c r s (lookup c.id s.changes)

-- what a new change is opened with
pub record Opening : Type 0 where
  pub repo_id : String
  pub base_canonical_revision : String
  pub intent : String
  pub scope : Fields
  pub acceptance_criteria : List AcceptanceCriterion
  pub actor : String
  pub architecture_proposal_ref : Option DesignRef
  pub flow_model_ref : Option DesignRef

abbrev pub is_based : Context → Opening → Bool
is_based x o = elim (find_snapshot o.base_canonical_revision x.snapshots) [
  | none ↦ false
  | some s ↦ s.repo_id == o.repo_id
]

abbrev pub fresh : Context → String → List Fields → Opening → DesignChange
fresh x id unknowns o = record {
  id = id;
  repo_id = o.repo_id;
  base_canonical_revision = o.base_canonical_revision;
  intent = strip o.intent;
  scope = o.scope;
  acceptance_criteria = o.acceptance_criteria;
  design_revision = record {
    id = x.new_id;
    change_id = id;
    architecture_proposal_ref = o.architecture_proposal_ref;
    flow_model_ref = o.flow_model_ref;
    expected_changes = [];
    created_at = x.now;
  };
  state = opened;
  design_drc = none;
  implementation = none;
  expected_actual = none;
  lvs_result = none;
  verification = [];
  close_receipt = none;
  remaining_unknowns = unknowns;
  version = 1;
  created_at = x.now;
  updated_at = x.now;
}

abbrev pub insert_fresh : Context → DesignChange → String → Store → Result Code Store
insert_fresh x c actor s = insert c (receipt_of x.now c 1 "open_change" actor none) s

-- `open_change`, with the identity that is drawn and the unknowns of the evidence brief
unfoldable pub open_change :
    Context → String → List Fields → Opening → Store → Result Code (DesignChange × Store)
unfolding insert receipt_of
open_change x id unknowns o s = do
  raise_if (not (is_based x o)) invalid_base_revision
  raise_if (is_blank o.intent) intent_required
  t ← insert_fresh x (fresh x id unknowns o) o.actor s
  ok (fresh x id unknowns o, t)

abbrev plane_name : String → String
plane_name p = if p == "architecture" then "architecture_mutation" else "flow_mutation"

-- the name that the receipt has
abbrev pub command_name : Action → String
command_name (plan_change claims a f) = "plan"
command_name (design_mutation m) = plane_name m.plane
command_name (begin_implementation s) = "begin_implementation"
command_name (record_repair_application r) = "record_repair_application"
command_name record_reindex = "record_reindex"
command_name run_reindex = "run_reindex"
command_name (request_reindex id) = "request_reindex"
command_name (adopt_index_job id rs) = "adopt_index_job"
command_name evaluate_expected_actual = "evaluate_expected_actual"
command_name (verify_change rs) = "verify"
command_name (close_change rules) = "close"
command_name (abandon_change reason) = "abandon"

abbrev pub found : Option DesignChange → Result Code DesignChange
found none = err change_not_found
found (some c) = ok c

-- `get_change`
unfoldable pub get_change : String → Store → Result Code DesignChange
get_change id s = found (lookup id s.changes)

-- the write of `apply_command`
unfoldable pub commit : Context → Command → DesignChange → DesignChange → Store → Result Code Store
unfolding update receipt_of
commit x k before after s =
    update before.version after
      (receipt_of x.now after (suc before.version) (command_name k.action) k.actor
        (some before.state))
      s

-- `apply_command`
unfoldable pub run_command :
    Codec → Context → String → Command → Store → Result Code (DesignChange × Store)
unfolding get_change apply_command commit
run_command codec x id k s = do
  before ← get_change id s
  after ← apply_command codec x before k
  t ← commit x k before after s
  ok (after, t)
