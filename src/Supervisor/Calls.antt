-- ===== src/Supervisor/Calls.antt =====
-- The calls of src/process_supervisor.cpp: add, remove, start, stop and what they do to one process.
use pman.Common.{ℕ, Bool, true, false, List, [], ◌∷◌, Option, none, some, if◌then◌else◌, ◌==◌, ◌&&◌}
use pman.Supervisor.Process.{
  RestartConfig, ProcessStatus, ProcessState, Supervisor, find, change, erase,
}

-- `add`; `none` is `std::runtime_error`.
unfoldable pub new_state : ℕ → RestartConfig → ProcessState
new_state name restart = record {
  name = name;
  restart = restart;
  handle = none;
  status = record {
    pid = none;
    running = false;
    last_exit_status = 0;
    restart_count = 0;
    last_start_time = 0;
    last_exit_time = 0;
    next_restart_delay = 0;
  };
  restart_times = [];
  pending_restart = false;
  scheduled_restart_time = 0;
}

unfoldable pub add_found : ℕ → RestartConfig → Option ProcessState → Supervisor → Option Supervisor
unfolding new_state
add_found name restart (some s) v = none
add_found name restart none v = some (record v { processes = new_state name restart ∷ v.processes })

unfoldable pub add : ℕ → RestartConfig → Supervisor → Option Supervisor
unfolding find add_found
add name restart v = add_found name restart (find name v.processes) v

-- `doStartProcess` on a state. `launched` is the pid that `launchProcess` returns, or `none` where
-- it throws; the exception goes on to the caller.
unfoldable pub do_start : ℕ → Option ℕ → ProcessState → ProcessState
do_start now (some pid) s =
    let st = s.status in
    record s {
      handle = some pid;
      status = record st { pid = some pid; running = true; last_start_time = now };
    }
do_start now none s =
    let st = s.status in record s { status = record st { pid = none; running = false } }

unfoldable pub link : Option ℕ → ℕ → List (ℕ × ℕ) → List (ℕ × ℕ)
unfolding erase
link (some pid) name es = (pid, name) ∷ erase pid es
link none name es = es

unfoldable pub do_start_process : ℕ → Option ℕ → ℕ → Supervisor → Supervisor
unfolding do_start link change
do_start_process now launched name v = record v {
  processes = change name (do_start now launched) v.processes;
  pid_to_name = link launched name v.pid_to_name;
}

-- `startProcess`; `none` is `std::runtime_error`.
unfoldable pub start_unless : Option ℕ → ℕ → Option ℕ → ℕ → Supervisor → Supervisor
unfolding do_start_process
start_unless (some pid) now launched name v = v
start_unless none now launched name v = do_start_process now launched name v

unfoldable pub start_found : ℕ → Option ℕ → ℕ → Option ProcessState → Supervisor → Option Supervisor
unfolding start_unless
start_found now launched name none v = none
start_found now launched name (some s) v = some (start_unless s.handle now launched name v)

unfoldable pub start_process : ℕ → Option ℕ → ℕ → Supervisor → Option Supervisor
unfolding find start_found
start_process now launched name v = start_found now launched name (find name v.processes) v

-- `stopProcess`, without the signal; `none` is `std::runtime_error`.
unfoldable pub forget_handle : Option ℕ → List (ℕ × ℕ) → List (ℕ × ℕ)
unfolding erase
forget_handle (some pid) es = erase pid es
forget_handle none es = es

unfoldable pub unplan : ProcessState → ProcessState
unplan s = record s { pending_restart = false }

unfoldable pub stop_found : ℕ → Option ProcessState → Supervisor → Option Supervisor
unfolding unplan change forget_handle
stop_found name none v = none
stop_found name (some s) v = some (record v {
  processes = change name unplan v.processes;
  pid_to_name = forget_handle s.handle v.pid_to_name;
})

unfoldable pub stop_process : ℕ → Supervisor → Option Supervisor
unfolding find stop_found
stop_process name v = stop_found name (find name v.processes) v

-- `restartProcess`; `none` is `std::runtime_error`.
unfoldable pub clear_restarts : ProcessState → ProcessState
clear_restarts s =
    let st = s.status in record s { status = record st { restart_count = 0 }; restart_times = [] }

unfoldable pub restart_stopped : ℕ → Option ℕ → ℕ → Option Supervisor → Option Supervisor
unfolding clear_restarts do_start_process change
restart_stopped now launched name none = none
restart_stopped now launched name (some v) = some (
    do_start_process now launched name
      (record v { processes = change name clear_restarts v.processes }))

unfoldable pub restart_process : ℕ → Option ℕ → ℕ → Supervisor → Option Supervisor
unfolding stop_process restart_stopped
restart_process now launched name v = restart_stopped now launched name (stop_process name v)

-- `status`; `none` is `std::runtime_error`.
pub status : ℕ → Supervisor → Option ProcessStatus
unfolding find
status name v = elim (find name v.processes) [ none ↦ none | some s ↦ some s.status ]

-- `remove`. `after` is the pid that the handle has once it was waited for: `none` if the child was reaped.
unfoldable pub without : ℕ → List ProcessState → List ProcessState
without name [] = []
without name (s ∷ ss) = if s.name == name then without name ss else s ∷ without name ss

pub left_handle : Option ℕ → Option ℕ → Option ℕ
left_handle none after = none
left_handle (some pid) after = after

unfoldable pub remove_found : ℕ → Option ℕ → Option ProcessState → Supervisor → Supervisor
unfolding without left_handle forget_handle
remove_found name after none v = v
remove_found name after (some s) v = record v {
  processes = without name v.processes;
  pid_to_name = forget_handle (left_handle s.handle after) v.pid_to_name;
}

unfoldable pub remove : ℕ → Option ℕ → Supervisor → Supervisor
unfolding find remove_found
remove name after v = remove_found name after (find name v.processes) v

-- `start`, without the thread and the signals. An exception of `doStartProcess` ends it: then the
-- last component is false, and the supervisor is not running.
unfoldable pub start_one :
    Option ℕ
    → ℕ
    → ProcessState
    → List ProcessState
    → List (ℕ × ℕ)
    → List ProcessState × List (ℕ × ℕ) × Bool
    → List ProcessState × List (ℕ × ℕ) × Bool
unfolding do_start
start_one (some pid) now s ss es rest = (do_start now (some pid) s ∷ rest.0, rest.1, rest.2)
start_one none now s ss es rest = (do_start now none s ∷ ss, es, false)

unfoldable pub start_all :
    ℕ → (ℕ → Option ℕ) → List ProcessState → List (ℕ × ℕ) → List ProcessState × List (ℕ × ℕ) × Bool
unfolding start_one link
start_all now launch [] es = ([], es, true)
start_all now launch (s ∷ ss) es =
    start_one (launch s.name) now s ss es (start_all now launch ss (link (launch s.name) s.name es))

unfoldable pub start : ℕ → (ℕ → Option ℕ) → Supervisor → Supervisor
unfolding start_all
start now launch v =
    let done = start_all now launch v.processes v.pid_to_name in
    if v.running then v else record { processes = done.0; pid_to_name = done.1; running = done.2 }

-- `stop`, without the signals.
unfoldable pub stop : Supervisor → Supervisor
stop v = record v { running = false }

-- `stopGracefully`: a round asks each handle for an exit, which `exits` gives by the name, and the
-- rounds end once no handle is left that had none.
unfoldable pub try_wait : Option ℕ → Option ℕ → ProcessState → ProcessState
try_wait (some pid) (some exit_status) s =
    let st = s.status in
    record s {
      handle = none;
      status = record st { running = false; last_exit_status = exit_status };
    }
try_wait (some pid) none s = s
try_wait none exited s = s

pub has_stopped : Option ℕ → Option ℕ → Bool
has_stopped (some pid) none = false
has_stopped (some pid) (some exit_status) = true
has_stopped none exited = true

unfoldable pub poll_round : (ℕ → Option ℕ) → List ProcessState → Bool × List ProcessState
unfolding try_wait has_stopped
poll_round exits [] = (true, [])
poll_round exits (s ∷ ss) =
    let rest = poll_round exits ss in
    (has_stopped s.handle (exits s.name) && rest.0, try_wait s.handle (exits s.name) s ∷ rest.1)

unfoldable pub poll_rounds : List (ℕ → Option ℕ) → List ProcessState → List ProcessState
unfolding poll_round
poll_rounds [] ss = ss
poll_rounds (exits ∷ rounds) ss =
    let polled = poll_round exits ss in
    let rest = poll_rounds rounds polled.1 in if polled.0 then polled.1 else rest

unfoldable pub stop_gracefully : List (ℕ → Option ℕ) → Supervisor → Supervisor
unfolding poll_rounds
stop_gracefully rounds v = record v { processes = poll_rounds rounds v.processes; running = false }
