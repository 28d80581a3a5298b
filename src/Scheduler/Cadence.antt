-- ===== src/Scheduler/Cadence.antt =====
-- The moments at which a periodic job starts (backend/mizan/platform/scheduler.py), over the ticks of
-- the scheduler process.
use mathlib.Core.Path.{subst}
use mizan_labs_v.Prelude.{
  ℕ, ◌+◌, ◌<◌, ◌≡◌, refl, sym, ◌∙◌, String, Option, none, some, inl, inr, List, [], ◌∷◌, ◌++◌,
  arith, Bool-cases, leb_false→lt,
}
use mizan_labs_v.Scheduler.{PeriodicJob, Runs, is_due, ticks, find_job}
use mizan_labs_v.Scheduler.Tick.{started, next_start, IsUnique, tick_exact}

-- A start that is recent enough at a moment: the job is not due again.
abbrev pub IsRecent : PeriodicJob → ℕ → Option ℕ → Type 0
IsRecent job now none = ⊥
IsRecent job now (some s) = now + 30 < s + job.every

module _ {S : Type 0} (func : PeriodicJob → ℕ → S → Option S) (clock : ℕ → ℕ) where
  next_start-IsRecent :
      (job : PeriodicJob) (now : ℕ) (last : Option ℕ)
      → 30 < job.every
      → IsRecent job now (next_start func clock job now last)
  next_start-IsRecent job now none long = omega arith
  next_start-IsRecent job now (some s) long = elim (Bool-cases (is_due job (some s) now)) [
    | inl due ↦ rw due (omega arith)
    | inr early ↦ rw early (leb_false→lt (s + job.every) (now + 30) early)
  ]

  -- After ticks that end at a moment, whatever the jobs did and however late the ticks were, every
  -- registered job has started so recently that it is not due at that moment.
  pub ticks_keep_up :
      (name : String) (before : List ℕ) (now : ℕ) (jobs : List PeriodicJob) {job : PeriodicJob}
      (state : S) (runs : Runs)
      → IsUnique jobs
      → find_job name jobs ≡ some job
      → 30 < job.every
      → IsRecent job now (started name (ticks func clock (before ++ (now ∷ [])) jobs state runs).1)
  unfolding ticks
  ticks_keep_up name [] now jobs {job} state runs u found long =
      subst (IsRecent job now)
        (sym (tick_exact func clock name now jobs state runs u ∙ rw found refl))
        (next_start-IsRecent job now (started name runs) long)
  ticks_keep_up name (t ∷ before) now jobs state runs u found long =
      ticks_keep_up name before now jobs _ _ u found long
