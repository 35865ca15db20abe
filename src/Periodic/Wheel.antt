-- ===== src/Periodic/Wheel.antt =====
-- What src/periodic_scheduler.cpp uses of the timer wheel: a timer is scheduled for a task, is cancelled,
-- or is due and runs the callback of its task; and the wheel of src/timer_wheel.cpp as this interface.
use pman.Common.{ℕ, List, [], ◌∷◌, map, Bool, Option, none, some, if◌then◌else◌, ◌==◌}
use pman.TimerWheel.{Entry, Wheel, schedule, cancel, process_expired}

pub record Timers {ℓ} (W : Type ℓ) : Type ℓ where
  pub schedule : ℕ → ℕ → W → ℕ × W
  pub cancel : ℕ → W → Bool × W
  -- The task of a timer that is due, which is taken out.
  pub expire : W → Option (ℕ × W)

-- A wheel at a reading of its clock, with the task of each timer, and the tasks whose callbacks it is to call.
pub record Timed : Type 0 where
  pub wheel : Wheel
  pub clock : ℕ
  pub owners : List (ℕ × ℕ)
  pub due : List ℕ

owner_of : ℕ → List (ℕ × ℕ) → ℕ
owner_of timer [] = 0
owner_of timer ((k, task) ∷ ks) = if k == timer then task else owner_of timer ks

take_due : List ℕ → Timed → Option (ℕ × Timed)
take_due [] w = none
take_due (task ∷ tasks) w = some (task, record w { due = tasks })

-- Where no callback is left, the timers that have expired are taken out.
look_up : List ℕ → Timed → Option (ℕ × Timed)
unfolding take_due owner_of
look_up [] w =
    let r = process_expired w.clock w.clock w.wheel in
    take_due (map (λ (e : Entry). owner_of e.id w.owners) r.0) (record w { wheel = r.1 })
look_up (task ∷ tasks) w = take_due (task ∷ tasks) w

pub timer_wheel : Timers Timed
unfolding look_up
timer_wheel = record {
  schedule = λ delay task w.
      let r = schedule w.clock delay w.wheel in
      (r.0, record w { wheel = r.1; owners = (r.0, task) ∷ w.owners });
  cancel = λ timer w. let r = cancel timer w.wheel in (r.0, record w { wheel = r.1 });
  expire = λ w. look_up w.due w;
}
