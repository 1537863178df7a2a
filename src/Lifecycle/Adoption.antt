-- ===== src/Lifecycle/Adoption.antt =====
-- `adopt_index_job` of rintel/design_lifecycle/service.py, with `_canonicalize_actual_evidence` and
-- `_implementation_from_index_result`: how the output of an index job becomes the evidence.
use rintel_core.Prelude.{
  suc, String, Bool, ◌&&◌, ◌||◌, not, Option, none, some, List, [], ◌∷◌, find_first, Result, ok,
  err, raise_if, ◌>>◌, ◌>>=◌, ◌==◌, string_eq, option_eq, if◌then◌else◌,
}
use rintel_core.Lifecycle.Models.{
  implementing, state_eq, Relation, recorded, IndexJobLink, Implementation, DesignChange, Code,
  index_job_identity_mismatch, index_job_already_adopted, index_job_incomplete,
  index_job_result_stale, index_job_result_unpublished, index_job_run_mismatch,
  actual_evidence_not_canonical,
}
use rintel_core.Lifecycle.Context.{
  Context, Snapshot, Edge, IndexJob, JobResult, implementation_of, find_snapshot, active_revision,
  index_job,
}
use rintel_core.Lifecycle.Comparison.{relation_eq}
use rintel_core.Lifecycle.Gates.{require_state, is_adopted}

-- `_canonicalize_actual_evidence`: every selector has a row
unfoldable pub canonicalize : List Edge → List Relation → Result Code (List Relation)
canonicalize edges [] = ok []
canonicalize edges (r ∷ rs) = elim (find_first (λ (e : Edge). e.relation == r) edges) [
  | none ↦ err actual_evidence_not_canonical
  | some e ↦ elim (canonicalize edges rs) [ err f ↦ err f | ok es ↦ ok (e.relation ∷ es) ]
]

module _ (x : Context) (c : DesignChange) where
  abbrev linked_job : String → Result Code IndexJobLink
  linked_job id = elim (implementation_of c).index_job [
    | none ↦ err index_job_identity_mismatch
    | some l ↦
        if l.job_id == id && l.requested_design_revision == c.design_revision.id
        then ok l
        else err index_job_identity_mismatch
  ]

  abbrev finished : IndexJob → Result Code JobResult
  finished j = elim j.result [
    | none ↦ err index_job_incomplete
    | some r ↦ if j.status == "done" then ok r else err index_job_incomplete
  ]

  abbrev published_in : Option Snapshot → Result Code Snapshot
  published_in none = err index_job_result_unpublished
  published_in (some s) =
      if s.repo_id == c.repo_id && s.publication_status == "published"
      then ok s
      else err index_job_result_unpublished

  abbrev snapshot_of : JobResult → Result Code Snapshot
  snapshot_of r =
      if r.snapshot_id == ""
      then err index_job_result_unpublished
      else published_in (find_snapshot r.snapshot_id x.snapshots)

  -- the revision is that of the request, or the output of this run upon it
  abbrev is_output : IndexJobLink → JobResult → Snapshot → Bool
  is_output l r s =
      some r.snapshot_id == l.input_canonical_revision
      || s.run_id == some r.run_id && s.parent_id == l.input_canonical_revision

  -- the job's result, its guards passed
  unfoldable pub proved_result : String → Result Code (IndexJobLink × JobResult)
  unfolding index_job active_revision
  proved_result id = do
    l ← linked_job id
    raise_if (is_adopted l) index_job_already_adopted
    j ← index_job x id c.repo_id
    r ← finished j
    raise_if (not (r.repo_id == c.repo_id) || r.run_id == "") index_job_identity_mismatch
    s ← snapshot_of r
    raise_if (not (some r.snapshot_id == active_revision x c.repo_id)) index_job_result_stale
    raise_if (not (is_output l r s)) index_job_run_mismatch
    ok (l, r)

  -- `_implementation_from_index_result`, and the link that is marked
  abbrev pub adopted : IndexJobLink → JobResult → List Relation → Implementation
  adopted l r evidence = record (implementation_of c) {
    actual_changed_files = r.changed_files;
    current_evidence_revision = some r.snapshot_id;
    actual_evidence = evidence;
    observation_status = some recorded;
    index_job = some (record l { adopted_at = some x.now });
  }

  abbrev pub adopt_result : List Relation → IndexJobLink × JobResult → Result Code Implementation
  adopt_result selectors (l, r) =
      canonicalize (x.edges r.snapshot_id) selectors >>= λ es. ok (adopted l r es)

  unfoldable pub adopt : String → List Relation → Result Code DesignChange
  unfolding require_state proved_result canonicalize
  adopt id selectors = do
    require_state c (implementing ∷ [])
    p ← proved_result id
    i ← adopt_result selectors p
    ok (record c { implementation = some i; version = suc c.version; updated_at = x.now })
