-- ===== src/Periodic.antt =====
-- src/periodic_scheduler.cpp: tasks that run again and again. A function runs whole, up to the mutex that
-- it locks twice; a period is a number of nanoseconds, and 0 if it is not positive.
pub mod Wheel
pub mod Deadlock
mod Examples
use pman.Common.{
  ℕ, ◌+◌, ◌-◌, Bool, true, false, not, ◌&&◌, ◌||◌, List, [], ◌∷◌, ◌++◌, Option, none, some,
  if◌then◌else◌, ltb, leb, ◌==◌,
}
use pman.Periodic.Wheel.{Timers}

-- `PeriodicTaskConfig`, but for the name.
pub record PeriodicTaskConfig : Type 0 where
  pub period : ℕ
  pub initial_delay : ℕ
  pub fixed_rate : Bool
  pub catch_up : Bool
  pub max_concurrent : ℕ

-- `TaskState`
pub record TaskState : Type 0 where
  pub config : PeriodicTaskConfig
  pub stop_requested : Bool
  pub timer_id : ℕ
  pub active : Bool
  pub paused : Bool
  pub running_count : ℕ
  pub execution_count : ℕ
  pub last_execution : ℕ
  pub next_scheduled : ℕ
  pub total_execution_time : ℕ

abbrev pub new_task : PeriodicTaskConfig → TaskState
new_task config = record {
  config = config;
  stop_requested = false;
  timer_id = 0;
  active = true;
  paused = false;
  running_count = 0;
  execution_count = 0;
  last_execution = 0;
  next_scheduled = 0;
  total_execution_time = 0;
}

-- A function ends, or waits for ever for a mutex that its own thread has.
pub data Run {ℓ} (A : Type ℓ) : Type ℓ where
  ended : A → Run A
  deadlock : Run A

infixl 20 ◌>>=◌
abbrev pub ◌>>=◌ {ℓ κ} : {A : Type ℓ} {B : Type κ} → Run A → (A → Run B) → Run B
ended a >>= f = f a
deadlock >>= f = deadlock

-- The map `tasks_`, with the ids as keys.
pub find : ℕ → List (ℕ × TaskState) → Option TaskState
find id [] = none
find id ((k, t) ∷ ts) = if k == id then some t else find id ts

pub update : ℕ → (TaskState → TaskState) → List (ℕ × TaskState) → List (ℕ × TaskState)
update id f [] = []
update id f ((k, t) ∷ ts) = (k, if k == id then f t else t) ∷ update id f ts

-- `PeriodicScheduler` over a timer wheel.
pub record PeriodicScheduler {ℓ} (W : Type ℓ) : Type ℓ where
  pub timers : W
  pub tasks : List (ℕ × TaskState)
  pub next_task_id : ℕ
  pub is_locked : Bool
  pub running : Bool

abbrev pub new_scheduler {ℓ} : {W : Type ℓ} → W → PeriodicScheduler W
new_scheduler timers = record {
  timers = timers;
  tasks = [];
  next_task_id = 1;
  is_locked = false;
  running = false;
}

-- The delay that `scheduleNext` computes.
pub delay_of : Bool → ℕ → TaskState → ℕ
delay_of is_first now t =
    if is_first
    then t.config.initial_delay
    else (if t.config.fixed_rate
        then (if ltb now (t.next_scheduled + t.config.period)
            then t.next_scheduled + t.config.period - now
            else 0)
        else t.config.period)

abbrev pub is_runnable : TaskState → Bool
is_runnable t = t.active && not t.paused

pub is_full : TaskState → Bool
is_full t = leb t.config.max_concurrent t.running_count && not t.config.catch_up

pub count_run : ℕ → ℕ → TaskState → TaskState
count_run began now t = record t {
  running_count = t.running_count - 1;
  execution_count = t.execution_count + 1;
  last_execution = began;
  total_execution_time = t.total_execution_time + (now - began);
}

pub request_stops : List (ℕ × TaskState) → List (ℕ × TaskState)
request_stops [] = []
request_stops ((id, t) ∷ ts) = (id, record t { stop_requested = true }) ∷ request_stops ts

pub data Step : Type 0 where
  scheduled : PeriodicTaskConfig → ℕ → Step
  scheduled_with_token : PeriodicTaskConfig → ℕ → Step
  cancelled : ℕ → Step
  paused : ℕ → Step
  resumed : ℕ → ℕ → Step
  started : ℕ → Step
  stopped : Step
  fired : ℕ → Step
  finished : ℕ → ℕ → ℕ → Step

abbrev pub unlock {ℓ} : {W : Type ℓ} → PeriodicScheduler W → Run (PeriodicScheduler W)
unlock s = ended (record s { is_locked = false })

abbrev pub is_paused : Option TaskState → Bool
is_paused none = false
is_paused (some t) = t.paused

abbrev pub or_same {ℓ} :
    {W : Type ℓ}
    → PeriodicScheduler W
    → Option (Run (PeriodicScheduler W))
    → Run (PeriodicScheduler W)
or_same s none = ended s
or_same s (some r) = r

abbrev pub second {ℓ} : {W : Type ℓ} → Bool × PeriodicScheduler W → Run (PeriodicScheduler W)
second (b, s) = ended s

module _ {ℓ} {W : Type ℓ} (wheel : Timers W) where
  -- `scheduleNext`
  pub arm_found : Option TaskState → ℕ → Bool → ℕ → PeriodicScheduler W → PeriodicScheduler W
  unfolding delay_of update
  arm_found none id is_first now s = s
  arm_found (some t) id is_first now s =
      let delay = delay_of is_first now t in
      let armed = wheel.schedule delay id s.timers in
      if is_runnable t
      then record s {
        timers = armed.1;
        tasks =
            update id
              (λ (t : TaskState). record t { next_scheduled = now + delay; timer_id = armed.0 })
              s.tasks;
      }
      else s

  pub schedule_next : ℕ → Bool → ℕ → PeriodicScheduler W → Run (PeriodicScheduler W)
  unfolding arm_found find
  schedule_next id is_first now s =
      if s.is_locked then deadlock else ended (arm_found (find id s.tasks) id is_first now s)

  -- `schedule` of a task, and of one that takes a stop token, whose period is not tested; `none` is
  -- `std::invalid_argument`.
  pub schedule_task : PeriodicTaskConfig → ℕ → PeriodicScheduler W → Run (PeriodicScheduler W)
  unfolding schedule_next
  schedule_task config now s =
      let id = s.next_task_id in
      let s' : PeriodicScheduler W = record s {
        next_task_id = id + 1;
        tasks = (id, new_task config) ∷ s.tasks;
      } in
      if s.is_locked
      then deadlock
      else (if s.running then schedule_next id true now s' else ended s')

  pub schedule : PeriodicTaskConfig → ℕ → PeriodicScheduler W → Option (Run (PeriodicScheduler W))
  unfolding schedule_task
  schedule config now s = if config.period == 0 then none else some (schedule_task config now s)

  -- `cancel`
  pub cancel_found : Option TaskState → ℕ → PeriodicScheduler W → Bool × PeriodicScheduler W
  unfolding update
  cancel_found none id s = (false, s)
  cancel_found (some t) id s = (
    true,
    record s {
      timers = if t.timer_id == 0 then s.timers else (wheel.cancel t.timer_id s.timers).1;
      tasks =
          update id (λ (t : TaskState). record t { active = false; stop_requested = true }) s.tasks;
    },
  )

  pub cancel : ℕ → PeriodicScheduler W → Run (Bool × PeriodicScheduler W)
  unfolding cancel_found find
  cancel id s = if s.is_locked then deadlock else ended (cancel_found (find id s.tasks) id s)

  -- `pause` and `resume`
  pub pause : ℕ → PeriodicScheduler W → Run (PeriodicScheduler W)
  unfolding update
  pause id s =
      if s.is_locked
      then deadlock
      else ended
          (record s { tasks = update id (λ (t : TaskState). record t { paused = true }) s.tasks })

  pub resume_locked : ℕ → ℕ → PeriodicScheduler W → Run (PeriodicScheduler W)
  unfolding schedule_next update
  resume_locked id now s =
      let s' : PeriodicScheduler W = record s {
        tasks = update id (λ (t : TaskState). record t { paused = false }) s.tasks;
      } in
      if is_paused (find id s.tasks)
      then (if s.running then schedule_next id false now s' else ended s')
      else ended s

  pub resume : ℕ → ℕ → PeriodicScheduler W → Run (PeriodicScheduler W)
  unfolding resume_locked
  resume id now s =
      if s.is_locked
      then deadlock
      else resume_locked id now (record s { is_locked = true }) >>= unlock

  -- `start`
  pub start_tasks : List (ℕ × TaskState) → ℕ → PeriodicScheduler W → Run (PeriodicScheduler W)
  unfolding schedule_next
  start_tasks [] now s = ended s
  start_tasks ((id, t) ∷ ts) now s =
      (if is_runnable t then schedule_next id true now s else ended s) >>= (start_tasks ts now)

  pub start : ℕ → PeriodicScheduler W → Run (PeriodicScheduler W)
  unfolding start_tasks
  start now s =
      if s.running
      then ended s
      else (if s.is_locked
          then deadlock
          else start_tasks s.tasks now (record s { running = true; is_locked = true }) >>= unlock)

  -- `stop`; `stopGracefully` also waits for the workers, for a time, before the timer wheel stops.
  pub stop_tasks : List (ℕ × TaskState) → W → W
  stop_tasks [] w = w
  stop_tasks ((id, t) ∷ ts) w =
      stop_tasks ts (if t.timer_id == 0 then w else (wheel.cancel t.timer_id w).1)

  pub stop : PeriodicScheduler W → Run (PeriodicScheduler W)
  unfolding stop_tasks request_stops
  stop s =
      if s.is_locked
      then deadlock
      else ended (record s {
        running = false;
        timers = stop_tasks s.tasks s.timers;
        tasks = request_stops s.tasks;
      })

  -- `executeTask`, of the task of a timer that is due. To submit the task is to count it as running.
  pub execute_found : Option TaskState → ℕ → ℕ → PeriodicScheduler W → Run (PeriodicScheduler W)
  unfolding is_full schedule_next update
  execute_found none id now s = ended s
  execute_found (some t) id now s =
      if is_runnable t
      then (if is_full t
          then schedule_next id false now s
          else ended (record s {
            tasks =
                update id (λ (t : TaskState). record t { running_count = t.running_count + 1 })
                  s.tasks;
          }))
      else ended s

  pub execute_task : ℕ → ℕ → PeriodicScheduler W → Run (PeriodicScheduler W)
  unfolding execute_found find
  execute_task id now s = if s.is_locked then deadlock else execute_found (find id s.tasks) id now s

  pub fire_found : Option (ℕ × W) → ℕ → PeriodicScheduler W → Run (PeriodicScheduler W)
  unfolding execute_task
  fire_found none now s = ended s
  fire_found (some (id, timers)) now s = execute_task id now (record s { timers = timers })

  pub fire : ℕ → PeriodicScheduler W → Run (PeriodicScheduler W)
  unfolding fire_found
  fire now s = fire_found (wheel.expire s.timers) now s

  -- The end of a task on a worker, which began at `began`.
  pub finish_found : Option TaskState → ℕ → ℕ → ℕ → PeriodicScheduler W → Run (PeriodicScheduler W)
  unfolding count_run update schedule_next
  finish_found none id began now s = ended s
  finish_found (some t) id began now s =
      let s' : PeriodicScheduler W = record s { tasks = update id (count_run began now) s.tasks } in
      if t.running_count == 0
      then ended s
      else (if s.running && is_runnable t then schedule_next id false now s' else ended s')

  pub finish : ℕ → ℕ → ℕ → PeriodicScheduler W → Run (PeriodicScheduler W)
  unfolding finish_found find
  finish id began now s =
      if s.is_locked then deadlock else finish_found (find id s.tasks) id began now s

  -- The calls, the timers that are due and the ends of tasks, in any order.
  pub step : Step → PeriodicScheduler W → Run (PeriodicScheduler W)
  unfolding schedule cancel pause resume start stop fire finish
  step (scheduled config now) s = or_same s (schedule config now s)
  step (scheduled_with_token config now) s = schedule_task config now s
  step (cancelled id) s = cancel id s >>= second
  step (paused id) s = pause id s
  step (resumed id now) s = resume id now s
  step (started now) s = start now s
  step stopped s = stop s
  step (fired now) s = fire now s
  step (finished id began now) s = finish id began now s

  pub run : List Step → PeriodicScheduler W → Run (PeriodicScheduler W)
  unfolding step
  run [] s = ended s
  run (x ∷ xs) s = step x s >>= run xs
