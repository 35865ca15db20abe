-- ===== src/Periodic/Examples.antt =====
-- src/periodic_scheduler.cpp at work, over the wheel of src/timer_wheel.cpp.
use pman.Common.{◌≡◌, refl, true, false, not, ◌&&◌, [], ◌∷◌, replicate}
use pman.Periodic.Wheel.{Timed, timer_wheel}
use pman.Periodic.{
  PeriodicTaskConfig, find, update, delay_of, PeriodicScheduler, new_scheduler, arm_found,
  schedule_next, schedule_task, schedule, cancel_found, cancel, pause, is_paused, resume_locked,
  resume, start_tasks, start, stop_tasks, request_stops, stop, is_full, execute_found, execute_task,
  fire_found, fire, count_run, finish_found, finish, scheduled, started, step, run,
}
use pman.Periodic.Deadlock.{is_deadlock, any_runnable, start-deadlock}

methods : Unit {0}
unfolding find update delay_of arm_found schedule_next schedule_task schedule cancel_found cancel
    pause resume_locked resume start_tasks start stop_tasks request_stops stop is_full execute_found
    execute_task fire_found fire count_run finish_found finish step run
methods = tt

abbrev empty : Timed
empty = record {
  wheel = record {
    tick_duration = 1000000;
    wheel_size = 256;
    num_wheels = 4;
    wheels = replicate 4 (replicate 256 []);
    current_slots = 0 ∷ 0 ∷ 0 ∷ 0 ∷ [];
    next_id = 1;
    active_count = 0;
  };
  clock = 0;
  owners = [];
  due = [];
}

abbrev every_second : PeriodicTaskConfig
every_second = record {
  period = 1000000000;
  initial_delay = 0;
  fixed_rate = true;
  catch_up = true;
  max_concurrent = 3;
}

-- A task that is scheduled before the start.
early :
    is_deadlock (run timer_wheel (scheduled every_second 5 ∷ started 6 ∷ []) (new_scheduler empty))
    ≡ true
unfolding methods
early = refl

abbrev with_task : PeriodicScheduler Timed
with_task = record {
  timers = empty;
  tasks =
      (
        1,
        record {
          config = every_second;
          stop_requested = false;
          timer_id = 0;
          active = true;
          paused = false;
          running_count = 0;
          execution_count = 0;
          last_execution = 0;
          next_scheduled = 0;
          total_execution_time = 0;
        },
      )
      ∷ [];
  next_task_id = 2;
  is_locked = false;
  running = false;
}

start-deadlock_example :
    (is_deadlock (start timer_wheel 6 with_task)
      ≡ (not with_task.running && any_runnable with_task.tasks))
    × (is_deadlock (resume timer_wheel 1 6 with_task)
        ≡ (with_task.running && is_paused (find 1 with_task.tasks)))
start-deadlock_example = start-deadlock timer_wheel 6 1 with_task refl
