-- ===== src/Jobs.antt =====
-- `JobManager` of rintel/server/jobs.py. The lock makes each call one step; the runner is what it
-- does to its job, its ticks and its end; the calls of the persister are a log, newest first.
pub mod Run
use rintel_core.Prelude.{
  ℕ, String, Bool, true, false, Option, none, some, List, [], ◌∷◌, Result, ok, err, if◌then◌else◌,
}
use rintel_core.Prelude.Dict.{lookup, insert}
use rintel_core.Prelude.Json.{Json}

pub data Status : Type 0 where
  pending running done failed : Status

abbrev pub is_terminal : Status → Bool
is_terminal pending = false
is_terminal running = false
is_terminal done = true
is_terminal failed = true

pub record Job : Type 0 where
  pub id : String
  pub kind : String
  pub repo_id : String
  pub status : Status
  pub progress : ℕ
  pub phase : Option String
  pub result : Option Json
  pub failure : Option Json
  pub created_at : ℕ
  pub finished_at : Option ℕ

pub record JobManager : Type 0 where
  pub persists : Bool
  pub jobs : List (String × Job)
  pub log : List Job

-- the keyword arguments of `_update`
pub record Update : Type 0 where
  pub status : Option Status
  pub progress : Option ℕ
  pub phase : Option String
  pub result : Option Json
  pub failure : Option Json

abbrev pub or_else : {A : Type 0} → Option A → A → A
or_else none a = a
or_else (some b) a = b

abbrev pub or_keep : {A : Type 0} → Option A → Option A → Option A
or_keep none a = a
or_keep (some b) a = some b

abbrev pub ends : Option Status → Bool
ends none = false
ends (some s) = is_terminal s

-- `j.update(fields)`, and the time at which the job has finished
abbrev pub change : Update → ℕ → Job → Job
change u now j = record j {
  status = or_else u.status j.status;
  progress = or_else u.progress j.progress;
  phase = or_keep u.phase j.phase;
  result = or_keep u.result j.result;
  failure = or_keep u.failure j.failure;
  finished_at = if ends u.status then some now else j.finished_at;
}

-- `_emit`; what the persister raises is dropped
unfoldable pub emit : Job → JobManager → JobManager
emit j m = if m.persists then record m { log = j ∷ m.log } else m

unfoldable pub create : String → ℕ → String → String → JobManager → Job × JobManager
create id now kind repo_id m =
    let j : Job = record {
      id = id;
      kind = kind;
      repo_id = repo_id;
      status = pending;
      progress = 0;
      phase = none;
      result = none;
      failure = none;
      created_at = now;
      finished_at = none;
    } in
    (j, emit j (record m { jobs = insert id j m.jobs }))

-- `get`; where there is a loader, it alone is asked
unfoldable pub get : Option (String → Option Job) → String → JobManager → Option Job
get (some load) id m = load id
get none id m = lookup id m.jobs

abbrev emit_status : Option Status → Job → JobManager → JobManager
emit_status none j m = m
emit_status (some s) j m = emit j m

-- `_update`
unfoldable pub update : String → Update → ℕ → JobManager → JobManager
update id u now m = elim (lookup id m.jobs) [
  | none ↦ m
  | some j ↦
      emit_status u.status (change u now j) (record m { jobs = insert id (change u now j) m.jobs })
]

abbrev pub begins : Update
begins = record {
  status = some running;
  progress = some 1;
  phase = some "start";
  result = none;
  failure = none;
}

abbrev pub ticks : ℕ × String → Update
ticks (percent, phase) = record {
  status = none;
  progress = some percent;
  phase = some phase;
  result = none;
  failure = none;
}

-- the runner has returned, or raised
abbrev pub finishes : Result Json Json → Update
finishes (ok r) = record {
  status = some done;
  progress = some 100;
  phase = none;
  result = some r;
  failure = none;
}
finishes (err e) = record {
  status = some failed;
  progress = none;
  phase = none;
  result = none;
  failure = some e;
}

-- the calls of `tick`; the clock is read in each `_update`, and used in the last one
unfoldable pub tick_all : String → List (ℕ × String) → ℕ → JobManager → JobManager
tick_all id [] now m = m
tick_all id (t ∷ ts) now m = tick_all id ts now (update id (ticks t) now m)

-- `_run`
unfoldable pub run : String → List (ℕ × String) → Result Json Json → ℕ → JobManager → JobManager
run id ts end now m = update id (finishes end) now (tick_all id ts now (update id begins now m))
