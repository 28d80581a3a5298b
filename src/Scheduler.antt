-- ===== src/Scheduler.antt =====
-- Periodic jobs (backend/mizan/platform/scheduler.py): registration, `is_due`, `tick` and `_run`.
-- Moments are in seconds. What a job does to the rest of the system is an argument, `func`, which
-- answers the new state or that the job raised; a failed job's writes are rolled back. Rows of runs are
-- found by their name; the time of the end of a run is read from a clock.
pub mod Tick
pub mod Cadence
mod Examples
use Prim.Native.Nat.{Ordering}
use Prim.Native.String.{compare}
use mizan_labs_v.Prelude.{
  ℕ, suc, ◌+◌, String, Bool, true, false, ◌&&◌, not, Option, none, some, List, [], ◌∷◌, ◌++◌, leb,
  ◌==◌, str_eq, any, if◌then◌else◌,
}

-- `body` identifies the function object.
pub record PeriodicJob : Type 0 where
  pub name : String
  pub every : ℕ
  pub body : ℕ

pub record PeriodicJobRun : Type 0 where
  pub last_started_at : Option ℕ
  pub last_finished_at : Option ℕ
  pub has_error : Bool
  pub failures : ℕ

pub data Outcome : Type 0 where
  ran skipped failed : Outcome

abbrev pub Runs : Type 0
Runs = List (String × PeriodicJobRun)

abbrev pub find_job : String → List PeriodicJob → Option PeriodicJob
find_job name [] = none
find_job name (j ∷ jobs) = if str_eq j.name name then some j else find_job name jobs

unfoldable pub set_job : PeriodicJob → List PeriodicJob → List PeriodicJob
set_job job [] = job ∷ []
set_job job (j ∷ jobs) =
    let rest = set_job job jobs in if str_eq j.name job.name then job ∷ jobs else j ∷ rest

-- The decorator: `none` is the ValueError for a name that another function has.
unfoldable pub periodic : PeriodicJob → List PeriodicJob → Option (List PeriodicJob)
unfolding set_job
periodic job jobs = elim (find_job job.name jobs) [
  | none ↦ some (set_job job jobs)
  | some existing ↦ if existing.body == job.body then some (set_job job jobs) else none
]

-- registered_jobs: by name
unfoldable pub insert_job : PeriodicJob → List PeriodicJob → List PeriodicJob
insert_job job [] = job ∷ []
insert_job job (j ∷ jobs) =
    let rest = insert_job job jobs in
    elim (compare job.name j.name) [ Ordering.gt ↦ j ∷ rest | _ ↦ job ∷ j ∷ jobs ]

unfoldable pub registered_jobs : List PeriodicJob → List PeriodicJob
unfolding insert_job
registered_jobs [] = []
registered_jobs (job ∷ jobs) = insert_job job (registered_jobs jobs)

abbrev pub is_due : PeriodicJob → Option ℕ → ℕ → Bool
is_due job none now = true
is_due job (some last) now = leb (last + job.every) (now + 30)

abbrev pub new_run : PeriodicJobRun
new_run = record {
  last_started_at = none;
  last_finished_at = none;
  has_error = false;
  failures = 0;
}

-- The row of a job, made if there is none.
abbrev pub run_of : String → Runs → PeriodicJobRun
run_of name [] = new_run
run_of name ((n, r) ∷ runs) = if str_eq n name then r else run_of name runs

unfoldable pub set_run : String → PeriodicJobRun → Runs → Runs
set_run name run [] = (name, run) ∷ []
set_run name run ((n, r) ∷ runs) =
    let rest = set_run name run runs in if str_eq n name then (n, run) ∷ runs else (n, r) ∷ rest

module _ {S : Type 0} (func : PeriodicJob → ℕ → S → Option S) (clock : ℕ → ℕ) where
  -- The state of the system and the rows, after the job.
  unfoldable pub run_job : PeriodicJob → PeriodicJobRun → ℕ → S → Runs → S × Runs × Outcome
  unfolding set_run
  run_job job run now state runs = elim (func job now state) [
    | some state' ↦ (
      state',
      set_run job.name
          (record run { last_finished_at = some (clock now); has_error = false; failures = 0 })
          runs,
      ran,
    )
    | none ↦ (
      state,
      set_run job.name
          (record run {
            last_finished_at = some (clock now);
            has_error = true;
            failures = suc run.failures;
          })
          runs,
      failed,
    )
  ]

  -- only is not None and job.name not in only
  abbrev pub is_left_out : Option (List String) → PeriodicJob → Bool
  is_left_out none job = false
  is_left_out (some only) job = not (any (λ n. str_eq n job.name) only)

  unfoldable pub tick_jobs :
      Option (List String) → ℕ → List PeriodicJob → S → Runs → S × Runs × List (String × Outcome)
  unfolding set_run run_job
  tick_jobs only now [] state runs = (state, runs, [])
  tick_jobs only now (job ∷ jobs) state runs =
      let run = run_of job.name runs in
      let started = record run { last_started_at = some now } in
      let (state', runs', outcome) =
        run_job job started now state (set_run job.name started runs) in
      let after_run = tick_jobs only now jobs state' runs' in
      let after_skip = tick_jobs only now jobs state (set_run job.name run runs) in
      let left_out = tick_jobs only now jobs state runs in
      if is_left_out only job
      then left_out
      else if not (is_due job run.last_started_at now)
      then (after_skip.0, after_skip.1, (job.name, skipped) ∷ after_skip.2)
      else (after_run.0, after_run.1, (job.name, outcome) ∷ after_run.2)

  unfoldable pub tick :
      Option (List String) → ℕ → List PeriodicJob → S → Runs → S × Runs × List (String × Outcome)
  unfolding tick_jobs registered_jobs
  tick only now jobs = tick_jobs only now (registered_jobs jobs)

  -- The loop of the scheduler process, at the moments when it ticks.
  unfoldable pub ticks : List ℕ → List PeriodicJob → S → Runs → S × Runs
  unfolding tick
  ticks [] jobs state runs = (state, runs)
  ticks (now ∷ later) jobs state runs =
      let (state', runs', outcomes) = tick none now jobs state runs in ticks later jobs state' runs'
