-- ===== src/Pool.antt =====
-- src/enhanced_thread_pool.cpp: the pool of workers with priorities, cancellation and metrics. A task
-- is its id. Between two steps of a worker the others may run; what the code does under one lock,
-- or on one atomic variable, is one step, and so is the update of the metrics after it.
pub mod Order
pub mod Balance
pub mod Active
pub mod Metered
mod Examples
use pman.Common.{
  ℕ, zero, suc, ◌+◌, ◌-◌, Bool, true, false, not, ◌&&◌, ◌||◌, List, [], ◌∷◌, ◌++◌, map,
  if◌then◌else◌, ltb, leb, ◌==◌, length, get_or, modify, replicate, Option, none, some,
}
use pman.Common.Int.{ℤ, pos, ltb_ℤ, eqb_ℤ}

-- `TaskEntry`, with its flags under its id.
pub record Entry : Type 0 where
  pub id : ℕ
  pub priority : ℤ
  pub sequence_number : ℕ
  pub submit_time : ℕ

-- `TaskEntry::operator<`
pub before : Entry → Entry → Bool
before a b =
    if not (eqb_ℤ a.priority b.priority)
    then ltb_ℤ b.priority a.priority
    else ltb b.sequence_number a.sequence_number

-- `std::priority_queue`, in the order in which `top` and `pop` give the entries: a greatest one by
-- `operator<` is first.
pub push : Entry → List Entry → List Entry
unfolding before
push e [] = e ∷ []
push e (x ∷ xs) = if before x e then e ∷ x ∷ xs else x ∷ push e xs

-- `ThreadPoolMetrics`, but for the time of the last activity and the two that `metrics` fills in.
pub record Metrics : Type 0 where
  pub tasks_submitted : ℕ
  pub tasks_completed : ℕ
  pub tasks_cancelled : ℕ
  pub tasks_failed : ℕ
  pub total_wait_time : ℕ
  pub total_execution_time : ℕ

abbrev pub no_metrics : Metrics
no_metrics = record {
  tasks_submitted = 0;
  tasks_completed = 0;
  tasks_cancelled = 0;
  tasks_failed = 0;
  total_wait_time = 0;
  total_execution_time = 0;
}

-- Where a worker stands in `workerLoop`: it waits, it has taken an entry out of the queue, it is
-- counted as active and runs the task since a time, the task has ended, or its thread has ended.
pub data Worker : Type 0 where
  waiting : Worker
  took : Entry → Worker
  running : Entry → ℕ → Worker
  ended : Entry → ℕ → Worker
  stopped : Worker

-- `EnhancedThreadPool`; `cancelled` and `completed` are the ids whose flag is set.
pub record Pool : Type 0 where
  pub queue : List Entry
  pub shutting_down : Bool
  pub active_workers : ℕ
  pub next_task_id : ℕ
  pub sequence_counter : ℕ
  pub metrics : Metrics
  pub workers : List Worker
  pub cancelled : List ℕ
  pub completed : List ℕ

pub has : ℕ → List ℕ → Bool
has id [] = false
has id (x ∷ xs) = x == id || has id xs

-- The constructor; `none` is `std::invalid_argument`.
pub start : ℕ → Pool
start count = record {
  queue = [];
  shutting_down = false;
  active_workers = 0;
  next_task_id = 1;
  sequence_counter = 0;
  metrics = no_metrics;
  workers = replicate count waiting;
  cancelled = [];
  completed = [];
}

pub new : ℕ → Option Pool
unfolding start
new count = if count == 0 then none else some (start count)

-- `submitWithPriority` of a callable: while the pool shuts down it throws, and has used up an id and
-- a sequence number. The id comes with the pool.
pub entry_of : ℤ → ℕ → Pool → Entry
entry_of priority now p = record {
  id = p.next_task_id;
  priority = priority;
  sequence_number = p.sequence_counter;
  submit_time = now;
}

pub submit_with_priority : ℤ → ℕ → Pool → Option ℕ × Pool
unfolding entry_of push
submit_with_priority priority now p =
    let m = p.metrics in
    let p' = record p {
      next_task_id = p.next_task_id + 1;
      sequence_counter = p.sequence_counter + 1;
    } in
    if p.shutting_down then (none, p') else (
      some p.next_task_id,
      record p' {
        queue = push (entry_of priority now p) p.queue;
        metrics = record m { tasks_submitted = m.tasks_submitted + 1 };
      },
    )

-- `submit`
pub submit : ℕ → Pool → Option ℕ × Pool
unfolding submit_with_priority
submit now p = submit_with_priority (pos 0) now p

-- `TaskHandle::cancel`
pub cancel : ℕ → Pool → Bool × Pool
unfolding has
cancel id p =
    if has id p.completed then (false, p) else (true, record p { cancelled = id ∷ p.cancelled })

-- `TaskHandle::isCancelled`, which is also that of `CancellationToken`, and `isComplete`
pub is_cancelled : ℕ → Pool → Bool
unfolding has
is_cancelled id p = has id p.cancelled

pub is_complete : ℕ → Pool → Bool
unfolding has
is_complete id p = has id p.completed

-- `cancelAll`
pub ids : List Entry → List ℕ
ids [] = []
ids (e ∷ es) = e.id ∷ ids es

pub cancel_all : Pool → Pool
unfolding ids
cancel_all p =
    let m = p.metrics in
    record p {
      queue = [];
      cancelled = ids p.queue ++ p.cancelled;
      metrics = record m { tasks_cancelled = m.tasks_cancelled + length p.queue };
    }

-- The predicate that `waitIdle` and `waitIdleFor` wait for.
pub is_idle : Pool → Bool
is_idle p = length p.queue == 0 && p.active_workers == 0

-- `resetMetrics`
pub reset_metrics : Pool → Pool
reset_metrics p = record p { metrics = no_metrics }

-- `resize`; `none` is one of its two exceptions.
pub resize : ℕ → Pool → Option Pool
resize count p =
    if count == 0 || ltb count (length p.workers)
    then none
    else some (record p { workers = p.workers ++ replicate (count - length p.workers) waiting })

-- The destructor tells the workers to end.
pub shut_down : Pool → Pool
shut_down p = record p { shutting_down = true }

-- The locked part of `workerLoop`, of a worker that waits.
pub take : ℕ → List Entry → Pool → Pool
take i [] p =
    if p.shutting_down then record p { workers = modify i (λ w. stopped) p.workers } else p
take i (e ∷ es) p = record p { queue = es; workers = modify i (λ w. took e) p.workers }

-- An entry that was taken is skipped if it was cancelled, and else its task is called.
pub begin : ℕ → Entry → ℕ → Pool → Pool
unfolding has
begin i e now p =
    let m = p.metrics in
    if has e.id p.cancelled
    then record p {
      completed = e.id ∷ p.completed;
      metrics = record m { tasks_cancelled = m.tasks_cancelled + 1 };
      workers = modify i (λ w. waiting) p.workers;
    }
    else record p {
      active_workers = p.active_workers + 1;
      workers = modify i (λ w. running e now) p.workers;
    }

-- The task has returned or thrown.
pub complete : ℕ → Entry → ℕ → Pool → Pool
complete i e began p = record p {
  completed = e.id ∷ p.completed;
  workers = modify i (λ w. ended e began) p.workers;
}

-- The worker is no longer active, and `updateMetricsOnComplete`.
pub update_metrics : Bool → ℕ → ℕ → Metrics → Metrics
update_metrics success wait exec m = record m {
  tasks_completed = if success then m.tasks_completed + 1 else m.tasks_completed;
  tasks_failed = if success then m.tasks_failed else m.tasks_failed + 1;
  total_wait_time = m.total_wait_time + wait;
  total_execution_time = m.total_execution_time + exec;
}

pub leave : ℕ → Entry → ℕ → Bool → ℕ → Pool → Pool
unfolding update_metrics
leave i e began success now p = record p {
  active_workers = p.active_workers - 1;
  metrics = update_metrics success (began - e.submit_time) (now - began) p.metrics;
  workers = modify i (λ w. waiting) p.workers;
}

-- The next step of worker `i`. `success` is whether its task throws nothing.
pub work_from : Worker → ℕ → ℕ → Bool → Pool → Pool
unfolding take begin complete leave
work_from waiting i now success p = take i p.queue p
work_from (took e) i now success p = begin i e now p
work_from (running e began) i now success p = complete i e began p
work_from (ended e began) i now success p = leave i e began success now p
work_from stopped i now success p = p

pub work : ℕ → ℕ → Bool → Pool → Pool
unfolding work_from
work i now success p = work_from (get_or p.workers i stopped) i now success p

-- The calls of the pool and the steps of its workers, in any order.
pub data Step : Type 0 where
  submitted : ℤ → ℕ → Step
  cancelled_one : ℕ → Step
  cancelled_all : Step
  resized : ℕ → Step
  shut : Step
  worked : ℕ → ℕ → Bool → Step

abbrev pub or_same : Option Pool → Pool → Pool
or_same none p = p
or_same (some p') p = p'

pub step : Step → Pool → Pool
unfolding submit_with_priority cancel cancel_all resize shut_down work
step (submitted priority now) p = (submit_with_priority priority now p).1
step (cancelled_one id) p = (cancel id p).1
step cancelled_all p = cancel_all p
step (resized count) p = or_same (resize count p) p
step shut p = shut_down p
step (worked i now success) p = work i now success p

pub run : List Step → Pool → Pool
unfolding step
run [] p = p
run (s ∷ ss) p = run ss (step s p)
