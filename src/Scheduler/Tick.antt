-- ===== src/Scheduler/Tick.antt =====
-- What a tick (`tick` of backend/mizan/platform/scheduler.py) makes of the row of a job.
use Prim.Native.Nat.{Ordering}
use Prim.Native.String.{compare}
use mathlib.Core.Path.{subst}
use mizan_labs_v.Prelude.{
  ℕ, ◌≡◌, refl, sym, ap, ◌∙◌, String, Bool, false, ◌||◌, Option, none, some, inl, inr, ◌⊎◌, List,
  [], ◌∷◌, str_eq, any, eq_iff, str_eq-sym, arith, if◌then◌else◌, Bool-cases, Option-cases,
}
use mizan_labs_v.Scheduler.{
  PeriodicJob, PeriodicJobRun, Runs, is_due, run_of, set_run, run_job, is_left_out, tick_jobs,
  insert_job, registered_jobs, tick, find_job,
}

abbrev pub started : String → Runs → Option ℕ
started name runs = (run_of name runs).last_started_at

abbrev pub names_it : String → PeriodicJob → Bool
names_it name job = str_eq job.name name

order : (o : Ordering) → (o ≡ Ordering.gt) ⊎ ((o ≡ Ordering.lt) ⊎ (o ≡ Ordering.eq))
order Ordering.gt = inl refl
order Ordering.lt = inr (inl refl)
order Ordering.eq = inr (inr refl)

first_apart : (a b : Bool) → (a || b) ≡ false → a ≡ false
first_apart a b h = ground arith

-- No two jobs have a name in common.
abbrev pub IsUnique : List PeriodicJob → Type 0
IsUnique [] = Unit
IsUnique (job ∷ jobs) = (any (names_it job.name) jobs ≡ false) × IsUnique jobs

any-insert_job :
    (p : PeriodicJob → Bool) (job : PeriodicJob) (jobs : List PeriodicJob)
    → any p (insert_job job jobs) ≡ (p job || any p jobs)
unfolding insert_job
any-insert_job p job [] = refl
any-insert_job p job (j ∷ jobs) = elim (order (compare job.name j.name)) [
  | inl h ↦ (let rest = any-insert_job p job jobs in rw (insert_job, h) (ground arith))
  | inr (inl h) ↦ rw (insert_job, h) refl
  | inr (inr h) ↦ rw (insert_job, h) refl
]

any-registered :
    (p : PeriodicJob → Bool) (jobs : List PeriodicJob) → any p (registered_jobs jobs) ≡ any p jobs
unfolding registered_jobs
any-registered p [] = refl
any-registered p (job ∷ jobs) =
    any-insert_job p job (registered_jobs jobs) ∙ rw (any-registered p jobs) refl

insert_job-IsUnique :
    (job : PeriodicJob) (jobs : List PeriodicJob)
    → IsUnique jobs
    → any (names_it job.name) jobs ≡ false
    → IsUnique (insert_job job jobs)
unfolding insert_job
insert_job-IsUnique job [] u fresh = (refl, tt)
insert_job-IsUnique job (j ∷ jobs) u fresh = elim (order (compare job.name j.name)) [
  | inr (inl h) ↦ rw (insert_job, h) (fresh, u)
  | inr (inr h) ↦ rw (insert_job, h) (fresh, u)
  | inl h ↦
      (let turned = str_eq-sym j.name job.name in
        let rest = any-insert_job (names_it j.name) job jobs in
        let first = u.0 in
        rw (insert_job, h) (ground arith, insert_job-IsUnique job jobs u.1 (ground arith)))
]

registered-IsUnique : (jobs : List PeriodicJob) → IsUnique jobs → IsUnique (registered_jobs jobs)
unfolding registered_jobs
registered-IsUnique [] u = tt
registered-IsUnique (job ∷ jobs) u =
    insert_job-IsUnique job (registered_jobs jobs) (registered-IsUnique jobs u.1)
      (any-registered (names_it job.name) jobs ∙ u.0)

find_job-insert_job :
    (name : String) (job : PeriodicJob) (jobs : List PeriodicJob)
    → any (names_it job.name) jobs ≡ false
    → find_job name (insert_job job jobs) ≡ find_job name (job ∷ jobs)
unfolding insert_job
find_job-insert_job name job [] fresh = refl
find_job-insert_job name job (j ∷ jobs) fresh = elim (order (compare job.name j.name)) [
  | inr (inl h) ↦ rw (insert_job, h) refl
  | inr (inr h) ↦ rw (insert_job, h) refl
  | inl h ↦
      (let rest = find_job-insert_job name job jobs (ground arith) in
        rw (insert_job, h, rest)
          (elim (Bool-cases (str_eq job.name name)) [
            | inr e ↦ rw e refl
            | inl e ↦
                (let same = (eq_iff job.name name).0 e in
                  let distinct = first_apart (str_eq j.name job.name) _ fresh in
                  let apart = rw same at distinct in rw (e, apart) refl)
          ]))
]

find_job-registered :
    (name : String) (jobs : List PeriodicJob)
    → IsUnique jobs
    → find_job name (registered_jobs jobs) ≡ find_job name jobs
unfolding registered_jobs
find_job-registered name [] u = refl
find_job-registered name (job ∷ jobs) u =
    find_job-insert_job name job (registered_jobs jobs)
      (any-registered (names_it job.name) jobs ∙ u.0)
    ∙ rw (find_job-registered name jobs u.1) refl

run_of-set_run :
    (name : String) (run : PeriodicJobRun) (runs : Runs) → run_of name (set_run name run runs) ≡ run
unfolding set_run
run_of-set_run name run [] = rw ((eq_iff name name).1 refl) refl
run_of-set_run name run ((n, r) ∷ runs) = elim (Bool-cases (str_eq n name)) [
  | inl h ↦ rw (set_run, h) (rw h refl)
  | inr h ↦ rw (set_run, h) (rw h (run_of-set_run name run runs))
]

run_of-set_run_other :
    (name other : String) (run : PeriodicJobRun) (runs : Runs)
    → str_eq other name ≡ false
    → run_of name (set_run other run runs) ≡ run_of name runs
unfolding set_run
run_of-set_run_other name other run [] h = rw h refl
run_of-set_run_other name other run ((n, r) ∷ runs) h = elim (Bool-cases (str_eq n other)) [
  | inl e ↦ (let same = (eq_iff n other).0 e in rw (set_run, e) (rw (same, h) refl))
  | inr e ↦ elim (Bool-cases (str_eq n name)) [
    | inl e' ↦ rw (set_run, e, e') refl
    | inr e' ↦ rw (set_run, e, e') (run_of-set_run_other name other run runs h)
  ]
]

started-set_run :
    (name : String) (run : PeriodicJobRun) (runs : Runs)
    → started name (set_run name run runs) ≡ run.last_started_at
started-set_run name run runs = ap (λ r. r.last_started_at) (run_of-set_run name run runs)

started-set_run_other :
    (name other : String) (run : PeriodicJobRun) (runs : Runs)
    → str_eq other name ≡ false
    → started name (set_run other run runs) ≡ started name runs
started-set_run_other name other run runs h =
    ap (λ r. r.last_started_at) (run_of-set_run_other name other run runs h)

module _ {S : Type 0} (func : PeriodicJob → ℕ → S → Option S) (clock : ℕ → ℕ) where
  -- A run keeps the moment of its start, and every other row.
  started-run_job :
      (job : PeriodicJob) (run : PeriodicJobRun) (now : ℕ) (state : S) (runs : Runs)
      → started job.name (run_job func clock job run now state runs).1 ≡ run.last_started_at
  unfolding run_job
  started-run_job job run now state runs = elim (Option-cases (func job now state)) [
    | inl h ↦ rw (run_job, h) (started-set_run job.name _ runs)
    | inr (s, h) ↦ rw (run_job, h) (started-set_run job.name _ runs)
  ]

  run_job-other :
      (name : String) (job : PeriodicJob) (run : PeriodicJobRun) (now : ℕ) (state : S) (runs : Runs)
      → str_eq job.name name ≡ false
      → started name (run_job func clock job run now state runs).1 ≡ started name runs
  unfolding run_job
  run_job-other name job run now state runs other = elim (Option-cases (func job now state)) [
    | inl h ↦ rw (run_job, h) (started-set_run_other name job.name _ runs other)
    | inr (s, h) ↦ rw (run_job, h) (started-set_run_other name job.name _ runs other)
  ]

  -- A tick leaves the row of a name that none of its jobs has.
  tick_jobs-other :
      (name : String) (only : Option (List String)) (now : ℕ) (jobs : List PeriodicJob) (state : S)
      (runs : Runs)
      → any (names_it name) jobs ≡ false
      → started name (tick_jobs func clock only now jobs state runs).1 ≡ started name runs
  unfolding tick_jobs
  tick_jobs-other name only now [] state runs h = refl
  tick_jobs-other name only now (job ∷ jobs) state runs h =
      let other : str_eq job.name name ≡ false = ground arith in
      let others : any (names_it name) jobs ≡ false = ground arith in
      elim (Bool-cases (is_left_out func clock only job)) [
        | inl out ↦ rw (tick_jobs, out) (tick_jobs-other name only now jobs state runs others)
        | inr here ↦ elim (Bool-cases (is_due job (run_of job.name runs).last_started_at now)) [
          | inr early ↦
              rw (tick_jobs, here, early)
                (tick_jobs-other name only now jobs state _ others
                  ∙ started-set_run_other name job.name (run_of job.name runs) runs other)
          | inl due ↦
              (let going : PeriodicJobRun = record (run_of job.name runs) {
                last_started_at = some now;
              } in
                rw (tick_jobs, here, due)
                  (tick_jobs-other name only now jobs _ _ others
                    ∙ run_job-other name job going now state _ other
                    ∙ started-set_run_other name job.name going runs other))
        ]
      ]

  -- What the tick makes of the start of one of its jobs.
  abbrev pub next_start : PeriodicJob → ℕ → Option ℕ → Option ℕ
  next_start job now last = if is_due job last now then some now else last

  tick_jobs-own :
      (only : Option (List String)) (now : ℕ) (job : PeriodicJob) (jobs : List PeriodicJob)
      (state : S) (runs : Runs)
      → is_left_out func clock only job ≡ false
      → any (names_it job.name) jobs ≡ false
      → started job.name (tick_jobs func clock only now (job ∷ jobs) state runs).1
        ≡ next_start job now (started job.name runs)
  unfolding tick_jobs
  tick_jobs-own only now job jobs state runs here others =
      elim (Bool-cases (is_due job (run_of job.name runs).last_started_at now)) [
        | inr early ↦
            rw (tick_jobs, here, early)
              (tick_jobs-other job.name only now jobs state _ others
                ∙ started-set_run job.name (run_of job.name runs) runs)
        | inl due ↦
            (let going : PeriodicJobRun = record (run_of job.name runs) {
              last_started_at = some now;
            } in
              rw (tick_jobs, here, due)
                (tick_jobs-other job.name only now jobs _ _ others
                  ∙ started-run_job job going now state _))
      ]

  -- The start of a job by its name, of jobs that are not left out.
  abbrev pub start_after : ℕ → Option ℕ → Option PeriodicJob → Option ℕ
  start_after now last none = last
  start_after now last (some job) = next_start job now last

  tick_jobs-started :
      (name : String) (now : ℕ) (jobs : List PeriodicJob) (state : S) (runs : Runs)
      → IsUnique jobs
      → started name (tick_jobs func clock none now jobs state runs).1
        ≡ start_after now (started name runs) (find_job name jobs)
  unfolding tick_jobs
  tick_jobs-started name now [] state runs u = refl
  tick_jobs-started name now (job ∷ jobs) state runs u = elim (Bool-cases (str_eq job.name name)) [
    | inl same ↦
        (let e : job.name ≡ name = (eq_iff job.name name).0 same in
          rw same (
            subst
              (λ n.
                started n (tick_jobs func clock none now (job ∷ jobs) state runs).1
                ≡ next_start job now (started n runs))
              e (tick_jobs-own none now job jobs state runs refl u.0)))
    | inr other ↦ elim (Bool-cases (is_due job (run_of job.name runs).last_started_at now)) [
      | inr early ↦
          rw (tick_jobs, early, other)
            (tick_jobs-started name now jobs state _ u.1
              ∙ rw (started-set_run_other name job.name (run_of job.name runs) runs other) refl)
      | inl due ↦
          (let going : PeriodicJobRun = record (run_of job.name runs) {
            last_started_at = some now;
          } in
            rw (tick_jobs, due, other)
              (tick_jobs-started name now jobs _ _ u.1
                ∙ ap (λ last. start_after now last (find_job name jobs))
                    (run_job-other name job going now state _ other
                      ∙ started-set_run_other name job.name going runs other)))
    ]
  ]

  -- A tick starts a registered job if it is due, whatever the others do, and no other job.
  pub tick_exact :
      (name : String) (now : ℕ) (jobs : List PeriodicJob) (state : S) (runs : Runs)
      → IsUnique jobs
      → started name (tick func clock none now jobs state runs).1
        ≡ start_after now (started name runs) (find_job name jobs)
  unfolding tick
  tick_exact name now jobs state runs u =
      rw (sym (find_job-registered name jobs u))
        (tick_jobs-started name now (registered_jobs jobs) state runs (registered-IsUnique jobs u))
