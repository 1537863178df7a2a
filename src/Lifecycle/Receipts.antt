-- ===== src/Lifecycle/Receipts.antt =====
-- `record_test_run`, `record_approval` and `_approval_authorization` of
-- rintel/design_lifecycle/service.py, and the order in which independent receipts are read.
pub mod Approval
use rintel_core.Prelude.{
  ℕ, zero, suc, ◌+◌, ◌-◌, ◌≤◌, ◌<◌, String, Bool, true, false, ◌&&◌, ◌||◌, not, Option, none, some,
  some-inj, none-some, List, [], ◌∷◌, ◌++◌, contains, keep, last, All, is_nil, leb, Result, ok, err,
  after, after_raise, ok-inj, ok-subst, Bool-cases, inl, inr, ◌≡◌, refl, sym, ap, ◌∙◌, arith,
  eq_iff, raise_if, ◌>>◌, ◌>>=◌, ◌==◌, nat_eq, string_eq, option_eq, if◌then◌else◌,
}
use rintel_core.Lifecycle.Models.{
  state_eq, DesignChange, Code, stale_preflight, terminal_change, reindex_required,
  test_run_unavailable, test_run_binding_mismatch, test_run_incomplete,
  approver_authorization_unavailable, invalid_approval_decision,
}
use rintel_core.Lifecycle.Context.{
  Context, TestReceipt, ApprovalReceipt, implementation_of, active_revision,
}
use rintel_core.Lifecycle.Gates.{is_terminal, is_recorded, is_proof, is_approved}

-- what the trusted test runner says of a run
pub record TestRun : Type 0 where
  pub run_id : String
  pub change_id : Option String
  pub design_revision : Option String
  pub canonical_revision : Option String
  pub result : String
  pub test_identity : String
  pub evidence_refs : List String

abbrev is_other : Option String → String → Bool
is_other none s = false
is_other (some r) s = not (r == s)

abbrev lacks_proof : TestRun → Bool
lacks_proof r =
    not (contains r.result ("PASS" ∷ "FAIL" ∷ []))
    || r.test_identity == ""
    || is_nil r.evidence_refs

abbrev trusted : String → Option TestRun → Result Code TestRun
trusted id none = err test_run_unavailable
trusted id (some r) = if r.run_id == id then ok r else err test_run_unavailable

abbrev evidence_of : DesignChange → String
evidence_of c = elim (implementation_of c).current_evidence_revision [ none ↦ "" | some r ↦ r ]

-- the run is not of the evidence, or the evidence is not current
abbrev is_stale_run : Context → DesignChange → TestRun → Bool
is_stale_run x c r =
    not (r.canonical_revision == (implementation_of c).current_evidence_revision)
    || not ((implementation_of c).current_evidence_revision == active_revision x c.repo_id)

-- `record_test_run`; the receipt for the run that the runner's table has under `run_id`
unfoldable pub record_test_run :
    Context → (String → Option TestRun) → DesignChange → String → Result Code TestReceipt
unfolding active_revision
record_test_run x runs c run_id = do
  raise_if (is_terminal c.state) terminal_change
  raise_if (not (is_recorded (implementation_of c).observation_status)) reindex_required
  r ← trusted run_id (runs run_id)
  raise_if (is_other r.change_id c.id || is_other r.design_revision c.design_revision.id)
      test_run_binding_mismatch
  raise_if (is_stale_run x c r) test_run_binding_mismatch
  raise_if (lacks_proof r) test_run_incomplete
  ok (record {
    id = x.new_id;
    result = r.result;
    design_revision = c.design_revision.id;
    canonical_revision = evidence_of c;
  })

-- what the adapter of identities says of an approver
pub record Authorization : Type 0 where
  pub permission : String
  pub principal_type : String
  pub auth_method : String
  pub subject : String
  pub policy_version : String
  pub authorization_id : String
  pub principal_id : String
  pub auth_session_id : String
  pub instance_id : String

abbrev pub is_authorized : Authorization → Bool
is_authorized a =
    a.permission == "approve_design"
    && a.principal_type == "LOCAL_OWNER"
    && a.auth_method == "BOOTSTRAP_TOKEN"
    && not (
        contains "" (
          a.subject ∷ a.policy_version ∷ a.authorization_id ∷ a.principal_id ∷ a.auth_session_id
          ∷ a.instance_id ∷ []))

abbrev pub if_authorized : Option Authorization → Option Authorization
if_authorized none = none
if_authorized (some a) = if is_authorized a then some a else none

-- `_approval_authorization`
unfoldable pub approval_authorization :
    Option (String → DesignChange → Option Authorization)
    → DesignChange
    → String
    → Option Authorization
approval_authorization none c identity = none
approval_authorization (some find) c identity =
    if identity == "" then none else if_authorized (find identity c)

abbrev pub authorized : Option Authorization → Result Code Authorization
authorized none = err approver_authorization_unavailable
authorized (some a) = ok a

abbrev pub larger : ℕ → ℕ → ℕ
larger a b = if leb a b then b else a

-- a time behind that of the last receipt
abbrev pub next_time : ℕ → Option ApprovalReceipt → ℕ
next_time now none = now
next_time now (some r) = larger now (r.timestamp + 1)

abbrev pub approval_of : Context → DesignChange → String → Authorization → ApprovalReceipt
approval_of x c decision a = record {
  timestamp = next_time x.now (last x.approval_receipts);
  decision = decision;
  design_revision = c.design_revision.id;
  change_version = c.version;
  principal_id = a.principal_id;
  auth_session_id = a.auth_session_id;
  instance_id = a.instance_id;
}

-- `record_approval`
unfoldable pub record_approval :
    Context
    → Option (String → DesignChange → Option Authorization)
    → DesignChange
    → String
    → String
    → ℕ
    → Result Code ApprovalReceipt
unfolding approval_authorization
record_approval x find c identity decision expected_version = do
  raise_if (is_terminal c.state) terminal_change
  raise_if (not (c.version == expected_version)) stale_preflight
  a ← authorized (approval_authorization find c identity)
  raise_if (not (contains decision ("APPROVE" ∷ "REJECT" ∷ []))) invalid_approval_decision
  ok (approval_of x c decision a)

-- `append_independent_receipt`, with the order of time in which `independent_receipts` reads
abbrev pub file_receipt : ApprovalReceipt → List ApprovalReceipt → List ApprovalReceipt
file_receipt r [] = r ∷ []
file_receipt r (q ∷ qs) =
    let rest = file_receipt r qs in if leb q.timestamp r.timestamp then q ∷ rest else r ∷ q ∷ qs

-- receipts in the order of their times
abbrev pub IsSorted : List ApprovalReceipt → Type 0
IsSorted [] = Unit
IsSorted (r ∷ rs) = All (λ (q : ApprovalReceipt). r.timestamp ≤ q.timestamp) rs × IsSorted rs
