-- ===== src/Examples/Running.antt =====
-- The job manager of rintel/server/jobs.py, with one job of two run.
use rintel_core.Prelude.{◌≡◌, refl, ℕ, String, true, some, [], ◌∷◌, List, ok}
use rintel_core.Prelude.Dict.{lookup}
use rintel_core.Prelude.Json.{null}
use rintel_core.Jobs.{Job, JobManager, change, begins, create, run}
use rintel_core.Jobs.Run.{HasEnded, run-HasEnded}

abbrev job : String → Job
job id = (create id 5 "index" "r" (record { persists = true; jobs = []; log = [] })).0

abbrev manager : JobManager
manager = record { persists = true; jobs = ("a", job "a") ∷ ("b", job "b") ∷ []; log = [] }

abbrev two_ticks : List (ℕ × String)
two_ticks = (10, "scan") ∷ (60, "parse") ∷ []

abbrev ran : JobManager
ran = run "a" two_ticks (ok null) 9 manager

known : lookup "a" manager.jobs ≡ some (job "a")
unfolding lookup
known = refl

run-HasEnded_example :
    (k : Job) × (lookup "a" ran.jobs ≡ some k)
    × HasEnded (ok null) k
    × (k.finished_at ≡ some 9)
    × (k.created_at ≡ (job "a").created_at)
    × (ran.log ≡ k ∷ change begins 9 (job "a") ∷ [])
run-HasEnded_example = run-HasEnded "a" two_ticks (ok null) 9 manager (job "a") known
