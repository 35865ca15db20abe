-- ===== src/Supervisor/System.antt =====
-- src/process_supervisor.cpp: the calls, the exits of children and the rounds of the loop, in any order.
use pman.Common.{ℕ, false, List, [], ◌∷◌, Option, none, some}
use pman.Supervisor.Process.{Platform, RestartConfig, Supervisor}
use pman.Supervisor.Calls.{
  add, start_process, stop_process, restart_process, remove, start, stop, stop_gracefully,
}
use pman.Supervisor.Exits.{handle_child_exit, restart_round}

-- The calls and the events of a supervisor, in any order. A call that throws leaves it as it was.
pub data Event : Type 0 where
  added : ℕ → RestartConfig → Event
  removed : ℕ → Option ℕ → Event
  all_started : ℕ → (ℕ → Option ℕ) → Event
  all_stopped : Event
  all_stopped_gracefully : List (ℕ → Option ℕ) → Event
  started : ℕ → Option ℕ → ℕ → Event
  stopped : ℕ → Event
  restarted : ℕ → Option ℕ → ℕ → Event
  exited : ℕ → ℕ → ℕ → Event
  round : ℕ → (ℕ → Option ℕ) → Event

abbrev pub or_else : Option Supervisor → Supervisor → Supervisor
or_else none v = v
or_else (some v') v = v'

unfoldable pub step : Platform → Event → Supervisor → Supervisor
unfolding add remove start stop stop_gracefully start_process stop_process restart_process
    handle_child_exit restart_round
step p (added name rc) v = or_else (add name rc v) v
step p (removed name after) v = remove name after v
step p (all_started now launch) v = start now launch v
step p all_stopped v = stop v
step p (all_stopped_gracefully rounds) v = stop_gracefully rounds v
step p (started now launched name) v = or_else (start_process now launched name v) v
step p (stopped name) v = or_else (stop_process name v) v
step p (restarted now launched name) v = or_else (restart_process now launched name v) v
step p (exited now pid exit_status) v = handle_child_exit p now pid exit_status v
step p (round now launch) v = restart_round now launch v

unfoldable pub run : Platform → List Event → Supervisor → Supervisor
unfolding step
run p [] v = v
run p (e ∷ es) v = run p es (step p e v)

-- A new supervisor.
abbrev pub empty : Supervisor
empty = record { processes = []; pid_to_name = []; running = false }
