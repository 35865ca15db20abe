-- ===== src/Supervisor/Examples.antt =====
-- Runs of the supervisor of src/process_supervisor.cpp with one process, which exits twice.
use pman.Common.{
  ◌*◌, ◌++◌, ◌/◌, ◌%◌, ◌≤◌, ◌≡◌, ◌⊎◌, refl, true, false, List, [], ◌∷◌, none, some, ◌==◌, arith,
}
use pman.Common.Int.{pos, negsuc}
use pman.Supervisor.Process.{
  Platform, RestartConfig, RestartPolicy, BackoffStrategy, ProcessState, Supervisor,
  calculate_restart_delay, find, name_of,
}
use pman.Supervisor.Calls.{stop_process, add, start}
use pman.Supervisor.Exits.{handle_child_exit}
use pman.Supervisor.System.{Event, run, empty, step}
use pman.Supervisor.Delay.{restart_delay-bounds}
use pman.Supervisor.Made.{restarts_made}
use pman.Supervisor.Stopped.{is_planned, started_of, stopped-not_started}

-- Doubles as whole numbers, and a wait status as on Linux: the signal, and the exit status times 256.
abbrev linux : Platform
linux = record {
  times = λ a b. a * b;
  one = 1;
  to_nanoseconds = λ d m. pos (d * m);
  wifexited = λ status. status % 128 == 0;
  wexitstatus = λ status. status / 256;
}

abbrev config : RestartConfig
config = record {
  policy = RestartPolicy.on_failure;
  backoff_strategy = BackoffStrategy.linear;
  min_restart_delay = 10;
  max_restart_delay = 25;
  backoff_multiplier = 2;
  linear_increment = 10;
  custom_backoff = none;
  max_restarts = negsuc 0;
  max_restart_window = 1000;
  max_restarts_in_window = pos 2;
}

third_delay : calculate_restart_delay linux config 2 ≡ 25
unfolding calculate_restart_delay
third_delay = refl

-- The process fails, is started again 10 later under another pid, and fails once more.
abbrev events : List Event
events =
    Event.added 7 config
    ∷ Event.all_started 0 (λ name. some 100)
    ∷ Event.exited 5 100 256
    ∷ Event.round 15 (λ name. some 101)
    ∷ Event.exited 20 101 256
    ∷ []

abbrev failed_twice : Supervisor
failed_twice = run linux events empty

restart_delay-bounds_example :
    (10 ≤ calculate_restart_delay linux config 2)
    × ((calculate_restart_delay linux config 2 ≤ 25)
        ⊎ (calculate_restart_delay linux config 2 ≡ 10))
restart_delay-bounds_example = restart_delay-bounds linux config 2

abbrev failed : ProcessState
failed = record {
  name = 7;
  restart = config;
  handle = some 100;
  status = record {
    pid = none;
    running = false;
    last_exit_status = 256;
    restart_count = 1;
    last_start_time = 0;
    last_exit_time = 5;
    next_restart_delay = 10;
  };
  restart_times = 5 ∷ [];
  pending_restart = true;
  scheduled_restart_time = 15;
}

abbrev waiting : Supervisor
waiting = record { processes = failed ∷ []; pid_to_name = []; running = true }

waiting_reached :
    run linux
      (Event.added 7 config ∷ Event.all_started 0 (λ name. some 100) ∷ Event.exited 5 100 256 ∷ [])
      empty
    ≡ waiting
unfolding run step add start handle_child_exit
waiting_reached = refl

abbrev stopped_waiting : Supervisor
stopped_waiting = record waiting { processes = record failed { pending_restart = false } ∷ [] }

-- It is stopped while it waits for its restart: the round in which that was due passes it by.
stopped-not_started_example :
    (is_planned (
        find 7 (
          (run linux
            (Event.round 15 (λ name. some 101) ∷ Event.exited 16 100 0 ∷ [])
            stopped_waiting).processes))
      ≡ false)
    × (started_of (
          find 7 (
            (run linux
              (Event.round 15 (λ name. some 101) ∷ Event.exited 16 100 0 ∷ [])
              stopped_waiting).processes))
        ≡ started_of (find 7 waiting.processes))
unfolding find stop_process name_of
stopped-not_started_example =
    stopped-not_started linux 7 waiting stopped_waiting _ (λ pid h. absurd (ground (arith, h))) refl
      (refl, (refl, tt))

-- The process may be started twice again, and fails three times.
abbrev twice : RestartConfig
twice = record config { max_restarts = pos 2; max_restarts_in_window = pos 5 }

abbrev set_up : List Event
set_up = Event.added 7 twice ∷ Event.all_started 0 (λ name. some 100) ∷ []

abbrev failures : List Event
failures =
    Event.exited 5 100 256
    ∷ Event.round 15 (λ name. some 101)
    ∷ Event.exited 20 101 256
    ∷ Event.round 50 (λ name. some 102)
    ∷ Event.exited 60 102 256
    ∷ Event.round 90 (λ name. some 103)
    ∷ []

after_failures : ProcessState
after_failures = elim (find 7 ((run linux (set_up ++ failures) empty).processes)) [
  | some s ↦ s
  | none ↦ failed
]

twice_restarted : restarts_made linux 7 failures (run linux set_up empty) ≡ 2
unfolding restarts_made run find
twice_restarted = refl
