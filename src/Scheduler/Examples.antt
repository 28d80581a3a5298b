-- ===== src/Scheduler/Examples.antt =====
-- Runs of the scheduler (backend/mizan/platform/scheduler.py).
use mizan_labs_v.Prelude.{
  if◌then◌else◌, ◌==◌, ℕ, ◌+◌, ◌≡◌, refl, Option, none, some, List, [], ◌∷◌, ◌++◌, arith,
}
use mizan_labs_v.Scheduler.{
  PeriodicJob, find_job, tick, tick_jobs, ticks, run_job, set_run, registered_jobs, ran, failed,
  periodic,
}
use mizan_labs_v.Scheduler.Tick.{started, start_after, tick_exact}
use mizan_labs_v.Scheduler.Cadence.{IsRecent, ticks_keep_up}

abbrev sweep : PeriodicJob
sweep = record { name = "sweep"; every = 600; body = 1 }

abbrev digest : PeriodicJob
digest = record { name = "digest"; every = 300; body = 2 }

abbrev jobs : List PeriodicJob
jobs = sweep ∷ digest ∷ []

-- The sweep counts, and the digest always fails.
abbrev work : PeriodicJob → ℕ → ℕ → Option ℕ
work job now n = if job.body == 1 then some (n + 1) else none

abbrev clock : ℕ → ℕ
clock now = now

first_tick : (tick work clock none 1000 jobs 0 []).2 ≡ ("digest", failed) ∷ ("sweep", ran) ∷ []
unfolding tick registered_jobs tick_jobs set_run run_job
first_tick = refl

same_function : periodic sweep jobs ≡ some jobs
unfolding periodic
same_function = refl

other_function : periodic (record sweep { body = 3 }) jobs ≡ none
unfolding periodic
other_function = refl

tick_exact_example :
    started "sweep" (tick work clock none 1000 jobs 0 []).1
    ≡ start_after work clock 1000 (started "sweep" []) (find_job "sweep" jobs)
tick_exact_example = tick_exact work clock "sweep" 1000 jobs 0 [] (refl, (refl, tt))

ticks_keep_up_example :
    IsRecent digest 1700
      (started "digest" (ticks work clock ((1000 ∷ 1310 ∷ []) ++ (1700 ∷ [])) jobs 0 []).1)
ticks_keep_up_example =
    ticks_keep_up work clock "digest" (1000 ∷ 1310 ∷ []) 1700 jobs 0 [] (refl, (refl, tt)) refl
      (omega arith)
