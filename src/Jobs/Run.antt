-- ===== src/Jobs/Run.antt =====
-- A job that is run ends, in the state that its runner's end gives.
use rintel_core.Prelude.{
  ℕ, ◌≡◌, ◌≢◌, inl, inr, refl, String, some, List, [], ◌∷◌, Result, ok, err, Option-cases, ◌∙◌,
  arith, if◌then◌else◌,
}
use rintel_core.Prelude.Dict.{lookup, lookup-insert_self, lookup-insert_ne}
use rintel_core.Prelude.Json.{Json}
use rintel_core.Jobs.{
  Status, running, done, failed, Job, JobManager, Update, change, emit, update, begins, ticks,
  finishes, tick_all, run,
}

update-lookup :
    (id : String) (u : Update) (now : ℕ) (j : Job) (m : JobManager)
    → lookup id m.jobs ≡ some j
    → lookup id (update id u now m).jobs ≡ some (change u now j)
unfolding update emit
update-lookup id u now j m h = ground (arith, h, lookup-insert_self id (change u now j) m.jobs)

update_ne :
    (id other : String) (u : Update) (now : ℕ) (m : JobManager)
    → id ≢ other
    → lookup other (update id u now m).jobs ≡ lookup other m.jobs
unfolding update emit
update_ne id other u now m n = elim (Option-cases (lookup id m.jobs)) [
  | inl e ↦ ground (arith, e)
  | inr (j, e) ↦ ground (arith, e, lookup-insert_ne id other (change u now j) m.jobs n)
]

tick-log :
    (id : String) (t : ℕ × String) (now : ℕ) (j : Job) (m : JobManager)
    → lookup id m.jobs ≡ some j
    → ((update id (ticks t) now m).log ≡ m.log)
      × ((update id (ticks t) now m).persists ≡ m.persists)
unfolding update
tick-log id t now j m h = (ground (arith, h), ground (arith, h))

-- ticks persist nothing, and leave the job unfinished as it was
record IsTicked (id : String) (j k : Job) (m n : JobManager) : Type 0 where
  pub there : lookup id n.jobs ≡ some k
  pub log_kept : n.log ≡ m.log
  pub persists_kept : n.persists ≡ m.persists
  pub same_result : k.result ≡ j.result
  pub same_failure : k.failure ≡ j.failure
  pub same_created : k.created_at ≡ j.created_at

tick_all-IsTicked :
    (id : String) (ts : List (ℕ × String)) (now : ℕ) (j : Job) (m : JobManager)
    → lookup id m.jobs ≡ some j
    → (k : Job) × IsTicked id j k m (tick_all id ts now m)
unfolding tick_all
tick_all-IsTicked id [] now j m h = (
  j,
  record {
    there = h;
    log_kept = refl;
    persists_kept = refl;
    same_result = refl;
    same_failure = refl;
    same_created = refl;
  },
)
tick_all-IsTicked id (t ∷ ts) now j m h =
    let next = update id (ticks t) now m in
    let (k, r) =
      tick_all-IsTicked id ts now (change (ticks t) now j) next
        (update-lookup id (ticks t) now j m h) in
    let kept = tick-log id t now j m h in
    (
      k,
      record {
        there = r.there;
        log_kept = r.log_kept ∙ kept.0;
        persists_kept = r.persists_kept ∙ kept.1;
        same_result = r.same_result;
        same_failure = r.same_failure;
        same_created = r.same_created;
      },
    )

tick_all_ne :
    (id other : String) (ts : List (ℕ × String)) (now : ℕ) (m : JobManager)
    → id ≢ other
    → lookup other (tick_all id ts now m).jobs ≡ lookup other m.jobs
unfolding tick_all
tick_all_ne id other [] now m n = refl
tick_all_ne id other (t ∷ ts) now m n =
    tick_all_ne id other ts now (update id (ticks t) now m) n ∙ update_ne id other (ticks t) now m n

emitted :
    (id : String) (u : Update) (s : Status) (now : ℕ) (j : Job) (m : JobManager)
    → u.status ≡ some s
    → lookup id m.jobs ≡ some j
    → ((update id u now m).log ≡ (if m.persists then change u now j ∷ m.log else m.log))
      × ((update id u now m).persists ≡ m.persists)
unfolding update emit
emitted id u s now j m e h = (ground (arith, e, h), ground (arith, e, h))

-- How a job ends, by its runner's end.
abbrev pub HasEnded : Result Json Json → Job → Type 0
HasEnded (ok r) j = (j.status ≡ done) × (j.progress ≡ 100) × (j.result ≡ some r)
HasEnded (err e) j = (j.status ≡ failed) × (j.failure ≡ some e)

finishes-HasEnded :
    (end : Result Json Json) (now : ℕ) (j : Job) → HasEnded end (change (finishes end) now j)
finishes-HasEnded (ok r) now j = (refl, refl, refl)
finishes-HasEnded (err e) now j = (refl, refl)

finishes-time :
    (end : Result Json Json) (now : ℕ) (j : Job)
    → (change (finishes end) now j).finished_at ≡ some now
finishes-time (ok r) now j = refl
finishes-time (err e) now j = refl

finishes-status : (end : Result Json Json) → (s : Status) × ((finishes end).status ≡ some s)
finishes-status (ok r) = (done, refl)
finishes-status (err e) = (failed, refl)

module _ (id : String) (ts : List (ℕ × String)) (end : Result Json Json) (now : ℕ)
    (m : JobManager) where
  abbrev ran : JobManager
  ran = run id ts end now m

  -- Running a job that is there ends it: whatever ticks there are, it is done with the runner's
  -- result or failed with its error, and has the time of that. It is persisted twice, when it begins
  -- and when it has ended, and never in between.
  pub run-HasEnded :
      (j : Job)
      → lookup id m.jobs ≡ some j
      → (k : Job) × (lookup id ran.jobs ≡ some k)
        × HasEnded end k
        × (k.finished_at ≡ some now)
        × (k.created_at ≡ j.created_at)
        × (ran.log ≡ (if m.persists then k ∷ change begins now j ∷ m.log else m.log))
  unfolding run
  run-HasEnded j h =
      let begun = update id begins now m in
      let first = emitted id begins running now j m refl h in
      let (i, t) =
        tick_all-IsTicked id ts now (change begins now j) begun
          (update-lookup id begins now j m h) in
      let (s, e) = finishes-status end in
      let last = emitted id (finishes end) s now i (tick_all id ts now begun) e t.there in
      (
        change (finishes end) now i,
        update-lookup id (finishes end) now i (tick_all id ts now begun) t.there,
        finishes-HasEnded end now i,
        finishes-time end now i,
        t.same_created,
        ground (arith, first.0, first.1, last.0, t.log_kept, t.persists_kept),
      )

  -- Running a job changes no other job.
  pub run_ne : (other : String) → id ≢ other → lookup other ran.jobs ≡ lookup other m.jobs
  unfolding run
  run_ne other n =
      update_ne id other (finishes end) now (tick_all id ts now (update id begins now m)) n
      ∙ tick_all_ne id other ts now (update id begins now m) n
      ∙ update_ne id other begins now m n
