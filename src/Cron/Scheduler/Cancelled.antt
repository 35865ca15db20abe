-- ===== src/Cron/Scheduler/Cancelled.antt =====
-- A task that was cancelled, in src/cron_scheduler.cpp, is not collected to run again.
use pman.Common.{
  ℕ, ◌<◌, ◌≤◌, ◌+◌, ◌≡◌, refl, Bool, false, ◌&&◌, List, [], ◌∷◌, Option, none, some, if◌then◌else◌,
  ◌==◌, Bool-cases, inl, inr, All, sum_by, sum_by-append, arith,
}
use pman.Cron.Expression.{CronExpression}
use pman.Cron.Next.{Calendar, next_after}
use pman.Cron.Scheduler.{
  CronTask, CronScheduler, task_at, add_task, schedule, cancel_in, cancel, is_due, run_next,
  pass_by, run_due, scheduler_round, Call, Running, collect, execute, scheduled, cancelled,
  collected, ran, step, executed,
}

-- How often an id is in a list.
abbrev pub times : ℕ → List ℕ → ℕ
times id = sum_by (λ x. if x == id then 1 else 0)

-- A task of the id is not active, and the id is not to be given out.
abbrev IsInactive : ℕ → CronTask → Type 0
IsInactive id t = (t.id == id && t.active) ≡ false

record IsSilent (id : ℕ) (s : CronScheduler) : Type 0 where
  inactive : All (λ t. IsInactive id t) s.tasks
  given_out : id < s.next_task_id

cancel_in-IsInactive :
    (id other : ℕ) (ts : List CronTask)
    → All (λ t. IsInactive id t) ts
    → All (λ t. IsInactive id t) (cancel_in other ts)
unfolding cancel_in
cancel_in-IsInactive id other [] h = h
cancel_in-IsInactive id other (t ∷ ts) h = elim (Bool-cases (t.id == other)) [
  | inl e ↦ rw e (ground arith, cancel_in-IsInactive id other ts h.1)
  | inr e ↦ rw e (h.0, cancel_in-IsInactive id other ts h.1)
]

cancel_in_self : (id : ℕ) (ts : List CronTask) → All (λ t. IsInactive id t) (cancel_in id ts)
unfolding cancel_in
cancel_in_self id [] = tt
cancel_in_self id (t ∷ ts) = elim (Bool-cases (t.id == id)) [
  | inl e ↦ rw e (ground arith, cancel_in_self id ts)
  | inr e ↦ rw e (ground (arith, e), cancel_in_self id ts)
]

add_task-IsSilent :
    (id name : ℕ) (expr : CronExpression) (o : Option ℕ) (s : CronScheduler)
    → IsSilent id s
    → IsSilent id ((add_task (task_at s.next_task_id name expr o) s).1)
unfolding add_task task_at
add_task-IsSilent id name expr none s h = record {
  inactive = h.inactive;
  given_out = omega (arith, h.given_out);
}
add_task-IsSilent id name expr (some n) s h = record {
  inactive = (ground (arith, h.given_out), h.inactive);
  given_out = omega (arith, h.given_out);
}

-- What a round leaves, and what it runs.
abbrev IsQuiet : ℕ → List ℕ × List CronTask × Bool → Type 0
IsQuiet id r = (times id r.0 ≡ 0) × All (λ t. IsInactive id t) r.1

run_next-IsQuiet :
    (id : ℕ) (o : Option ℕ) (t : CronTask) (ts : List CronTask) (r : List ℕ × List CronTask × Bool)
    → (t.id == id) ≡ false
    → All (λ t. IsInactive id t) ts
    → IsQuiet id r
    → IsQuiet id (run_next o t ts r)
unfolding run_next sum_by
run_next-IsQuiet id none t ts r d h q = (refl, (ground (arith, d), h))
run_next-IsQuiet id (some n) t ts r d h q = (ground (arith, d, q.0), (ground (arith, d), q.1))

run_due-IsQuiet :
    (id : ℕ) (k : Calendar) (now : ℕ) (ts : List CronTask)
    → All (λ t. IsInactive id t) ts
    → IsQuiet id (run_due k now ts)
unfolding run_due pass_by is_due sum_by
run_due-IsQuiet id k now [] h = (refl, tt)
run_due-IsQuiet id k now (t ∷ ts) h = elim (Bool-cases (is_due now t)) [
  | inl e ↦ rw e (
      run_next-IsQuiet id (next_after k t.expression now) t ts (run_due k now ts)
        (ground (arith, e, h.0)) h.1 (run_due-IsQuiet id k now ts h.1))
  | inr e ↦ rw e ((run_due-IsQuiet id k now ts h.1).0, (h.0, (run_due-IsQuiet id k now ts h.1).1))
]

collect-IsSilent :
    (id : ℕ) (k : Calendar) (now : ℕ) (ids : List ℕ) (s : CronScheduler)
    → IsSilent id s
    → (times id (collect k now ids s).to_execute ≤ times id ids)
      × IsSilent id (collect k now ids s).scheduler
unfolding collect scheduler_round sum_by
collect-IsSilent id k now [] s h =
    let q = run_due-IsQuiet id k now s.tasks h.inactive in
    (omega (arith, q.0), record { inactive = q.1; given_out = h.given_out })
collect-IsSilent id k now (i ∷ ids) s h = (omega arith, h)

execute-IsSilent :
    (id : ℕ) (ids : List ℕ) (s : CronScheduler)
    → IsSilent id s
    → (times id (execute ids s).0 + times id (execute ids s).1.to_execute ≤ times id ids)
      × IsSilent id (execute ids s).1.scheduler
unfolding execute sum_by
execute-IsSilent id [] s h = (omega arith, h)
execute-IsSilent id (i ∷ ids) s h = (omega arith, h)

-- What a step runs and leaves to run was to be run before.
step-IsSilent :
    (id : ℕ) (k : Calendar) (c : Call) (r : Running)
    → IsSilent id r.scheduler
    → (times id ((step k c r).0) + times id ((step k c r).1.to_execute) ≤ times id r.to_execute)
      × IsSilent id ((step k c r).1.scheduler)
unfolding step schedule cancel sum_by
step-IsSilent id k (scheduled now name expr) r h =
    (omega arith, add_task-IsSilent id name expr (next_after k expr now) r.scheduler h)
step-IsSilent id k (cancelled other) r h = (
  omega arith,
  record {
    inactive = cancel_in-IsInactive id other r.scheduler.tasks h.inactive;
    given_out = h.given_out;
  },
)
step-IsSilent id k (collected now) r h =
    let one = collect-IsSilent id k now r.to_execute r.scheduler h in (omega (arith, one.0), one.1)
step-IsSilent id k ran r h = execute-IsSilent id r.to_execute r.scheduler h

executed-IsSilent :
    (id : ℕ) (k : Calendar) (cs : List Call) (r : Running)
    → IsSilent id r.scheduler
    → times id (executed k cs r) ≤ times id r.to_execute
unfolding executed sum_by
executed-IsSilent id k [] r h = omega arith
executed-IsSilent id k (c ∷ cs) r h =
    let one = step-IsSilent id k c r h in
    let rest = executed-IsSilent id k cs ((step k c r).1) one.1 in
    omega (
      arith,
      sum_by-append (λ x. if x == id then 1 else 0) ((step k c r).0)
          (executed k cs ((step k c r).1)),
      one.0,
      rest,
    )

-- Once `cancel` was called with an id that `schedule` gave out, that task is run only as often as the thread
-- had it in `toExecute` at the time of the call, so never again where the thread had not collected it,
-- whatever is scheduled and cancelled later, and whenever the rounds come.
pub cancel-executed :
    (id : ℕ) (k : Calendar) (cs : List Call) (r : Running)
    → id < r.scheduler.next_task_id
    → times id (executed k cs (record r { scheduler = (cancel id r.scheduler).1 }))
      ≤ times id r.to_execute
unfolding cancel
cancel-executed id k cs r h =
    executed-IsSilent id k cs (record r { scheduler = (cancel id r.scheduler).1 })
      (record { inactive = cancel_in_self id r.scheduler.tasks; given_out = h })
