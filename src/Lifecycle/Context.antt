-- ===== src/Lifecycle/Context.antt =====
-- What a command of rintel/design_lifecycle/service.py asks at its time: the store, the clock, the
-- functions that the service is given, and the independent receipts; and the lineage tip.
use rintel_core.Prelude.{
  ℕ, String, Bool, false, ◌&&◌, not, Option, none, some, List, [], ◌∷◌, any, keep, leb, Result, ok,
  err, raise_if, ◌==◌, nat_eq, string_eq, option_eq, if◌then◌else◌,
}
use rintel_core.Lifecycle.Models.{
  DesignChange, DesignRef, Mutation, LvsResult, Relation, Implementation, Code,
  index_job_identity_mismatch, actual_revision_stale,
}

pub record Snapshot : Type 0 where
  pub id : String
  pub repo_id : String
  pub parent_id : Option String
  pub publication_status : String
  pub created_at : ℕ
  pub run_id : Option String

-- a row of a table of edges, with its identity, and a row of a table of nodes
pub record Edge : Type 0 where
  pub id : String
  pub relation : Relation

pub record Node : Type 0 where
  pub id : String
  pub path : String
  pub qname : String
  pub name : String

-- what a finished index job reports
pub record JobResult : Type 0 where
  pub repo_id : String
  pub run_id : String
  pub snapshot_id : String
  pub changed_files : List String

pub record IndexJob : Type 0 where
  pub repo_id : String
  pub kind : String
  pub status : String
  pub result : Option JobResult

pub record TestReceipt : Type 0 where
  pub id : String
  pub result : String
  pub design_revision : String
  pub canonical_revision : String

pub record ApprovalReceipt : Type 0 where
  pub timestamp : ℕ
  pub decision : String
  pub design_revision : String
  pub change_version : ℕ
  pub principal_id : String
  pub auth_session_id : String
  pub instance_id : String

pub record Context : Type 0 where
  pub now : ℕ
  pub new_id : String
  pub snapshots : List Snapshot
  pub edges : String → List Edge
  pub nodes : String → List Node
  pub job_lookup : Option (String → Option IndexJob)
  -- the check of the layout, which may raise
  pub lvs_runner : DesignChange → Result Code LvsResult
  -- whether the search of a graph is nested too deeply for the interpreter
  pub recursion_fails : List (String × String) → Bool
  pub mutate : DesignChange → Mutation → Result Code DesignRef
  -- a certificate that the relation is absent from the revision, and applies to it
  pub absence_certified : String → Relation → Bool
  pub test_receipts : List TestReceipt
  pub approval_receipts : List ApprovalReceipt

abbrev pub blank : Implementation
blank = record {
  expected_touched_scope = none;
  actual_changed_files = [];
  current_evidence_revision = none;
  actual_evidence = [];
  observation_status = none;
  repair_applications = [];
  index_job = none;
}

-- `change.implementation or {}`
abbrev pub implementation_of : DesignChange → Implementation
implementation_of c = elim c.implementation [ none ↦ blank | some i ↦ i ]

-- `store.snapshot`
abbrev pub find_snapshot : String → List Snapshot → Option Snapshot
find_snapshot id [] = none
find_snapshot id (s ∷ ss) = let rest = find_snapshot id ss in if s.id == id then some s else rest

abbrev pub is_published : String → Snapshot → Bool
is_published repo_id s = s.repo_id == repo_id && s.publication_status == "published"

-- whether a row names `id` as its parent
abbrev pub is_child_of : String → Snapshot → Bool
is_child_of id s = not (id == "") && s.parent_id == some id

abbrev pub is_tip : List Snapshot → Snapshot → Bool
is_tip rows s = not (any (is_child_of s.id) rows)

abbrev pub newest : List Snapshot → ℕ
newest [] = 0
newest (s ∷ ss) = let rest = newest ss in if leb rest s.created_at then s.created_at else rest

abbrev pub only : List Snapshot → Option String
only [] = none
only (s ∷ []) = some s.id
only (s ∷ t ∷ ss) = none

abbrev pub published_rows : String → List Snapshot → List Snapshot
published_rows repo_id ss = keep (is_published repo_id) ss

abbrev pub tips : List Snapshot → List Snapshot
tips rows = keep (is_tip rows) rows

abbrev pub among_tips : List Snapshot → Option String
among_tips [] = none
among_tips (s ∷ []) = some s.id
among_tips (s ∷ t ∷ ss) = only (keep (λ x. x.created_at == newest (s ∷ t ∷ ss)) (s ∷ t ∷ ss))

-- `_active_revision`
unfoldable pub active_revision : Context → String → Option String
active_revision x repo_id = among_tips (tips (published_rows repo_id x.snapshots))

abbrev pub is_index_job : String → IndexJob → Bool
is_index_job repo_id j = j.repo_id == repo_id && j.kind == "index"

abbrev pub look_up : Context → String → Option IndexJob
look_up x id = elim x.job_lookup [ none ↦ none | some f ↦ f id ]

-- `_index_job`
unfoldable pub index_job : Context → String → String → Result Code IndexJob
index_job x id repo_id = elim (look_up x id) [
  | none ↦ err index_job_identity_mismatch
  | some j ↦ if is_index_job repo_id j then ok j else err index_job_identity_mismatch
]

abbrev pub is_current : Option String → Option String → Bool
is_current none active = false
is_current (some r) active = not (r == "") && active == some r

-- `_require_actual_current`
unfoldable pub require_actual_current : Context → DesignChange → Result Code (Unit {0})
require_actual_current x c =
    raise_if
      (not
        (is_current (implementation_of c).current_evidence_revision (active_revision x c.repo_id)))
      actual_revision_stale
