-- ===== src/Supervisor/Exits.antt =====
-- src/process_supervisor.cpp: handleChildExit, and the restarts that supervisorLoop makes.
use pman.Common.{
  ℕ, ◌+◌, ◌-◌, Bool, true, false, List, [], ◌∷◌, ◌++◌, Option, none, some, if◌then◌else◌, leb, ◌&&◌,
}
use pman.Supervisor.Process.{
  Platform, ProcessState, Supervisor, change, name_of, erase, cleanup_restart_history,
  should_restart, calculate_restart_delay,
}
use pman.Supervisor.Calls.{do_start, link, unplan}

-- `handleChildExit` on the state of the child: the exit is recorded, and a restart is planned.
unfoldable pub record_exit : ℕ → ℕ → ProcessState → ProcessState
record_exit now exit_status s =
    let st = s.status in
    record s {
      status = record st {
        running = false;
        last_exit_status = exit_status;
        last_exit_time = now;
        pid = none;
      };
    }

unfoldable pub plan_restart : Platform → ℕ → ProcessState → ProcessState
unfolding calculate_restart_delay
plan_restart p now s =
    let delay = calculate_restart_delay p s.restart s.status.restart_count in
    let st = s.status in
    record s {
      status = record st { next_restart_delay = delay; restart_count = s.status.restart_count + 1 };
      pending_restart = true;
      scheduled_restart_time = now + delay;
      restart_times = s.restart_times ++ now ∷ [];
    }

unfoldable pub clean : ℕ → ProcessState → ProcessState
unfolding cleanup_restart_history
clean now s = record s {
  restart_times = cleanup_restart_history (now - s.restart.max_restart_window) s.restart_times;
}

unfoldable pub child_exited : Platform → Bool → ℕ → ℕ → ProcessState → ProcessState
unfolding record_exit plan_restart clean should_restart
child_exited p supervising now exit_status s =
    let s' = record_exit now exit_status s in
    let cleaned = clean now s' in
    if supervising
    then (if should_restart p exit_status cleaned then plan_restart p now cleaned else cleaned)
    else s'

-- `handleChildExit`, without the callbacks.
unfoldable pub exit_found : Platform → ℕ → ℕ → ℕ → Option ℕ → Supervisor → Supervisor
unfolding child_exited erase change
exit_found p now pid exit_status none v = v
exit_found p now pid exit_status (some name) v = record v {
  processes = change name (child_exited p v.running now exit_status) v.processes;
  pid_to_name = erase pid v.pid_to_name;
}

unfoldable pub handle_child_exit : Platform → ℕ → ℕ → ℕ → Supervisor → Supervisor
unfolding name_of exit_found
handle_child_exit p now pid exit_status v =
    exit_found p now pid exit_status (name_of pid v.pid_to_name) v

-- One round of `supervisorLoop` over the restarts that are due; `launch` gives what `launchProcess`
-- makes of each name. Where it throws, the loop ends.
unfoldable pub is_due : ℕ → ProcessState → Bool
is_due now s = s.pending_restart && leb s.scheduled_restart_time now

unfoldable pub link_due : Bool → Option ℕ → ℕ → List (ℕ × ℕ) → List (ℕ × ℕ)
unfolding link
link_due true launched name es = link launched name es
link_due false launched name es = es

unfoldable pub restart_one :
    Bool
    → Option ℕ
    → ℕ
    → ProcessState
    → List ProcessState
    → List (ℕ × ℕ)
    → List ProcessState × List (ℕ × ℕ)
    → List ProcessState × List (ℕ × ℕ)
unfolding do_start unplan
restart_one true (some pid) now s ss es rest = (do_start now (some pid) (unplan s) ∷ rest.0, rest.1)
restart_one true none now s ss es rest = (do_start now none (unplan s) ∷ ss, es)
restart_one false launched now s ss es rest = (s ∷ rest.0, rest.1)

unfoldable pub restart_due :
    ℕ → (ℕ → Option ℕ) → List ProcessState → List (ℕ × ℕ) → List ProcessState × List (ℕ × ℕ)
unfolding is_due link_due restart_one
restart_due now launch [] es = ([], es)
restart_due now launch (s ∷ ss) es =
    restart_one (is_due now s) (launch s.name) now s ss es
      (restart_due now launch ss (link_due (is_due now s) (launch s.name) s.name es))

unfoldable pub restart_round : ℕ → (ℕ → Option ℕ) → Supervisor → Supervisor
unfolding restart_due
restart_round now launch v =
    let done = restart_due now launch v.processes v.pid_to_name in
    record v { processes = done.0; pid_to_name = done.1 }
