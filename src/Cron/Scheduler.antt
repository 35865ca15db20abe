-- ===== src/Cron/Scheduler.antt =====
-- `CronScheduler` of src/cron_scheduler.cpp, without its thread and its timerfd. A task is named by
-- its id.
pub mod Cancelled
use pman.Common.{
  ℕ, zero, suc, ◌+◌, ◌-◌, ◌*◌, ◌^◌, Bool, true, false, not, ◌&&◌, ◌||◌, List, [], ◌∷◌, ◌++◌, Option,
  none, some, if◌then◌else◌, ltb, leb, ◌==◌,
}
use pman.Cron.Expression.{CronExpression}
use pman.Cron.Next.{Calendar, next_after}

pub record CronTask : Type 0 where
  pub id : ℕ
  pub name : ℕ
  pub expression : CronExpression
  pub next_run : ℕ
  pub execution_count : ℕ
  pub active : Bool

pub record CronScheduler : Type 0 where
  pub tasks : List CronTask
  pub next_task_id : ℕ

-- `schedule`, of a task that is not null; `none` is the exception of `nextAfter`, after which the
-- id is used up.
pub task_at : ℕ → ℕ → CronExpression → Option ℕ → Option CronTask
task_at id name expr none = none
task_at id name expr (some next) = some (record {
  id = id;
  name = name;
  expression = expr;
  next_run = next;
  execution_count = 0;
  active = true;
})

pub add_task : Option CronTask → CronScheduler → Option ℕ × CronScheduler
add_task none s = (none, record s { next_task_id = s.next_task_id + 1 })
add_task (some t) s = (some t.id, record { tasks = t ∷ s.tasks; next_task_id = s.next_task_id + 1 })

pub schedule : Calendar → ℕ → ℕ → CronExpression → CronScheduler → Option ℕ × CronScheduler
unfolding task_at add_task
schedule k now name expr s = add_task (task_at s.next_task_id name expr (next_after k expr now)) s

-- `cancel`
pub cancel_in : ℕ → List CronTask → List CronTask
cancel_in id [] = []
cancel_in id (t ∷ ts) = (if t.id == id then record t { active = false } else t) ∷ cancel_in id ts

pub known : ℕ → List CronTask → Bool
known id [] = false
known id (t ∷ ts) = t.id == id || known id ts

pub cancel : ℕ → CronScheduler → Bool × CronScheduler
unfolding cancel_in known
cancel id s = (known id s.tasks, record s { tasks = cancel_in id s.tasks })

-- `nextExecution`; `none` is `std::runtime_error`.
pub next_run_of : ℕ → List CronTask → Option ℕ
next_run_of id [] = none
next_run_of id (t ∷ ts) = if t.id == id then some t.next_run else next_run_of id ts

pub next_execution : ℕ → CronScheduler → Option ℕ
unfolding next_run_of
next_execution id s = next_run_of id s.tasks

-- `listTasks`
pub active_tasks : List CronTask → List CronTask
active_tasks [] = []
active_tasks (t ∷ ts) = if t.active then t ∷ active_tasks ts else active_tasks ts

pub list_tasks : CronScheduler → List CronTask
unfolding active_tasks
list_tasks s = active_tasks s.tasks

-- The locked loop of `schedulerLoop`: the ids of the tasks to run, and the tasks. Where `nextAfter`
-- throws, the exception leaves the loop and the thread: then there is nothing to run, and the last
-- component is false.
pub is_due : ℕ → CronTask → Bool
is_due now t = t.active && leb t.next_run now

pub run_next :
    Option ℕ
    → CronTask
    → List CronTask
    → List ℕ × List CronTask × Bool
    → List ℕ × List CronTask × Bool
run_next none t ts rest = ([], record t { execution_count = t.execution_count + 1 } ∷ ts, false)
run_next (some next) t ts rest = (
  if rest.2 then t.id ∷ rest.0 else [],
  record t { execution_count = t.execution_count + 1; next_run = next } ∷ rest.1,
  rest.2,
)

pub pass_by : CronTask → List ℕ × List CronTask × Bool → List ℕ × List CronTask × Bool
pass_by t rest = (rest.0, t ∷ rest.1, rest.2)

pub run_due : Calendar → ℕ → List CronTask → List ℕ × List CronTask × Bool
unfolding is_due run_next pass_by
run_due k now [] = ([], [], true)
run_due k now (t ∷ ts) =
    let rest = run_due k now ts in
    if is_due now t then run_next (next_after k t.expression now) t ts rest else pass_by t rest

-- The ids that a round of the scheduler collects, in the order of the tasks.
pub scheduler_round : Calendar → ℕ → CronScheduler → List ℕ × CronScheduler
unfolding run_due
scheduler_round k now s = let done = run_due k now s.tasks in (done.0, record s { tasks = done.1 })

-- The earliest time of an active task, and how long `scheduleWakeup` waits for it, in nanoseconds.
pub earlier : ℕ → Option ℕ → ℕ
earlier next none = next
earlier next (some sofar) = if ltb next sofar then next else sofar

pub earliest : Option ℕ → List CronTask → Option ℕ
unfolding earlier
earliest sofar [] = sofar
earliest sofar (t ∷ ts) = earliest (if t.active then some (earlier t.next_run sofar) else sofar) ts

pub wakeup_delay : ℕ → ℕ → ℕ
wakeup_delay now first =
    let delay = if ltb now first then first - now else 10 ^ 9 in
    let capped = if ltb (3600 * 10 ^ 9) delay then 3600 * 10 ^ 9 else delay in
    if capped == 0 then 1 else capped

-- A scheduler with `toExecute`, the ids that its thread has collected under the mutex and is still to run.
pub record Running : Type 0 where
  pub scheduler : CronScheduler
  pub to_execute : List ℕ

-- The thread collects only when it has run what it has collected before.
pub collect : Calendar → ℕ → List ℕ → CronScheduler → Running
unfolding scheduler_round
collect k now [] s =
    let done = scheduler_round k now s in record { scheduler = done.1; to_execute = done.0 }
collect k now (id ∷ ids) s = record { scheduler = s; to_execute = id ∷ ids }

pub execute : List ℕ → CronScheduler → List ℕ × Running
execute [] s = ([], record { scheduler = s; to_execute = [] })
execute (id ∷ ids) s = (id ∷ [], record { scheduler = s; to_execute = ids })

-- The calls of a scheduler, and of its thread the locked part of a round and the run of one task after it, in
-- any order, and the ids that they run.
pub data Call : Type 0 where
  scheduled : ℕ → ℕ → CronExpression → Call
  cancelled : ℕ → Call
  collected : ℕ → Call
  ran : Call

pub step : Calendar → Call → Running → List ℕ × Running
unfolding schedule cancel collect execute
step k (scheduled now name expr) r =
    ([], record r { scheduler = (schedule k now name expr r.scheduler).1 })
step k (cancelled id) r = ([], record r { scheduler = (cancel id r.scheduler).1 })
step k (collected now) r = ([], collect k now r.to_execute r.scheduler)
step k ran r = execute r.to_execute r.scheduler

unfoldable pub executed : Calendar → List Call → Running → List ℕ
unfolding step
executed k [] r = []
executed k (c ∷ cs) r = (step k c r).0 ++ executed k cs ((step k c r).1)
