-- ===== src/Supervisor/Runs.antt =====
-- The limits on restarts in src/process_supervisor.cpp, over any calls and events.
use pman.Common.{Bool, Bool-cases, inl, inr, ◌==◌, ℕ, List, [], ◌∷◌, Option, none, some, All}
use pman.Supervisor.Process.{Platform, RestartConfig, ProcessState, Supervisor, change}
use pman.Supervisor.Calls.{
  without, remove, remove_found, start, start_all, start_one, stop, stop_gracefully, poll_round,
  poll_rounds, add, start_process, stop_process, clear_restarts, restart_process, stop_found,
  unplan, restart_stopped, start_unless, start_found, add_found, new_state,
}
use pman.Supervisor.Exits.{child_exited, handle_child_exit, restart_round, exit_found}
use pman.Supervisor.System.{step, or_else, run, empty, Event}
use pman.Supervisor.Limits.{
  IsLimited, do_start-IsLimited, try_wait-IsLimited, unplan-IsLimited, change-All,
  clear_restarts-IsLimited, child_exited-IsLimited, restart_due-IsLimited, started-IsLimited,
}

stop_found-IsLimited :
    (name : ℕ) (o : Option ProcessState) (v : Supervisor)
    → All IsLimited v.processes
    → All IsLimited ((or_else (stop_found name o v) v).processes)
unfolding stop_found
stop_found-IsLimited name none v h = h
stop_found-IsLimited name (some s) v h =
    change-All IsLimited name unplan v.processes unplan-IsLimited h

restart_stopped-IsLimited :
    (now : ℕ) (launched : Option ℕ) (name : ℕ) (o : Option Supervisor) (v : Supervisor)
    → All IsLimited v.processes
    → All IsLimited ((or_else o v).processes)
    → All IsLimited ((or_else (restart_stopped now launched name o) v).processes)
unfolding restart_stopped
restart_stopped-IsLimited now launched name none v h k = h
restart_stopped-IsLimited now launched name (some v') v h k =
    started-IsLimited now launched name
      (record v' { processes = change name clear_restarts v'.processes })
      (change-All IsLimited name clear_restarts v'.processes (λ s l. clear_restarts-IsLimited s) k)

start_unless-IsLimited :
    (handle : Option ℕ) (now : ℕ) (launched : Option ℕ) (name : ℕ) (v : Supervisor)
    → All IsLimited v.processes
    → All IsLimited ((start_unless handle now launched name v).processes)
unfolding start_unless
start_unless-IsLimited none now launched name v h = started-IsLimited now launched name v h
start_unless-IsLimited (some pid) now launched name v h = h

start_found-IsLimited :
    (now : ℕ) (launched : Option ℕ) (name : ℕ) (o : Option ProcessState) (v : Supervisor)
    → All IsLimited v.processes
    → All IsLimited ((or_else (start_found now launched name o v) v).processes)
unfolding start_found
start_found-IsLimited now launched name none v h = h
start_found-IsLimited now launched name (some s) v h =
    start_unless-IsLimited s.handle now launched name v h

add_found-IsLimited :
    (name : ℕ) (rc : RestartConfig) (o : Option ProcessState) (v : Supervisor)
    → All IsLimited v.processes
    → All IsLimited ((or_else (add_found name rc o v) v).processes)
unfolding add_found new_state clear_restarts
add_found-IsLimited name rc none v h = (clear_restarts-IsLimited (new_state name rc), h)
add_found-IsLimited name rc (some s) v h = h

exit_found-IsLimited :
    (p : Platform) (now pid exit_status : ℕ) (o : Option ℕ) (v : Supervisor)
    → All IsLimited v.processes
    → All IsLimited ((exit_found p now pid exit_status o v).processes)
unfolding exit_found
exit_found-IsLimited p now pid exit_status none v h = h
exit_found-IsLimited p now pid exit_status (some name) v h =
    change-All IsLimited name (child_exited p v.running now exit_status) v.processes
      (child_exited-IsLimited p v.running now exit_status) h

without-IsLimited :
    (name : ℕ) (ss : List ProcessState) → All IsLimited ss → All IsLimited (without name ss)
unfolding without
without-IsLimited name [] h = h
without-IsLimited name (s ∷ ss) h = elim (Bool-cases (s.name == name)) [
  | inl t ↦ rw t (without-IsLimited name ss h.1)
  | inr t ↦ rw t (h.0, without-IsLimited name ss h.1)
]

remove_found-IsLimited :
    (name : ℕ) (after : Option ℕ) (o : Option ProcessState) (v : Supervisor)
    → All IsLimited v.processes
    → All IsLimited ((remove_found name after o v).processes)
unfolding remove_found
remove_found-IsLimited name after none v h = h
remove_found-IsLimited name after (some s) v h = without-IsLimited name v.processes h

start_one-IsLimited :
    (launched : Option ℕ) (now : ℕ) (s : ProcessState) (ss : List ProcessState) (es : List (ℕ × ℕ))
    → (r : List ProcessState × List (ℕ × ℕ) × Bool) → All IsLimited (s ∷ ss)
    → All IsLimited r.0
    → All IsLimited ((start_one launched now s ss es r).0)
unfolding start_one
start_one-IsLimited (some pid) now s ss es r h k = (do_start-IsLimited now (some pid) s h.0, k)
start_one-IsLimited none now s ss es r h k = (do_start-IsLimited now none s h.0, h.1)

start_all-IsLimited :
    (now : ℕ) (launch : ℕ → Option ℕ) (ss : List ProcessState) (es : List (ℕ × ℕ))
    → All IsLimited ss
    → All IsLimited ((start_all now launch ss es).0)
unfolding start_all
start_all-IsLimited now launch [] es h = h
start_all-IsLimited now launch (s ∷ ss) es h =
    start_one-IsLimited (launch s.name) now s ss es _ h (start_all-IsLimited now launch ss _ h.1)

poll_round-IsLimited :
    (exits : ℕ → Option ℕ) (ss : List ProcessState)
    → All IsLimited ss
    → All IsLimited ((poll_round exits ss).1)
unfolding poll_round
poll_round-IsLimited exits [] h = h
poll_round-IsLimited exits (s ∷ ss) h =
    (try_wait-IsLimited s.handle (exits s.name) s h.0, poll_round-IsLimited exits ss h.1)

poll_rounds-IsLimited :
    (rounds : List (ℕ → Option ℕ)) (ss : List ProcessState)
    → All IsLimited ss
    → All IsLimited (poll_rounds rounds ss)
unfolding poll_rounds
poll_rounds-IsLimited [] ss h = h
poll_rounds-IsLimited (exits ∷ rounds) ss h = elim (Bool-cases ((poll_round exits ss).0)) [
  | inl t ↦ rw t (poll_round-IsLimited exits ss h)
  | inr t ↦ rw t (poll_rounds-IsLimited rounds _ (poll_round-IsLimited exits ss h))
]

start-IsLimited :
    (now : ℕ) (launch : ℕ → Option ℕ) (v : Supervisor)
    → All IsLimited v.processes
    → All IsLimited ((start now launch v).processes)
unfolding start
start-IsLimited now launch v h = elim (Bool-cases v.running) [
  | inl t ↦ rw t h
  | inr t ↦ rw t (start_all-IsLimited now launch v.processes v.pid_to_name h)
]

step-IsLimited :
    (p : Platform) (e : Event) (v : Supervisor)
    → All IsLimited v.processes
    → All IsLimited ((step p e v).processes)
unfolding step add remove start stop stop_gracefully start_process stop_process restart_process
    handle_child_exit restart_round
step-IsLimited p (Event.added name rc) v h = add_found-IsLimited name rc _ v h
step-IsLimited p (Event.removed name after) v h = remove_found-IsLimited name after _ v h
step-IsLimited p (Event.all_started now launch) v h = start-IsLimited now launch v h
step-IsLimited p Event.all_stopped v h = h
step-IsLimited p (Event.all_stopped_gracefully rounds) v h =
    poll_rounds-IsLimited rounds v.processes h
step-IsLimited p (Event.started now launched name) v h =
    start_found-IsLimited now launched name _ v h
step-IsLimited p (Event.stopped name) v h = stop_found-IsLimited name _ v h
step-IsLimited p (Event.restarted now launched name) v h =
    restart_stopped-IsLimited now launched name _ v h (stop_found-IsLimited name _ v h)
step-IsLimited p (Event.exited now pid exit_status) v h =
    exit_found-IsLimited p now pid exit_status _ v h
step-IsLimited p (Event.round now launch) v h =
    restart_due-IsLimited now launch v.processes v.pid_to_name h

run-IsLimited :
    (p : Platform) (es : List Event) (v : Supervisor)
    → All IsLimited v.processes
    → All IsLimited ((run p es v).processes)
unfolding run
run-IsLimited p [] v h = h
run-IsLimited p (e ∷ es) v h = run-IsLimited p es (step p e v) (step-IsLimited p e v h)

-- After any calls and events, no process was restarted more often than `maxRestarts` allows since
-- it was added or restarted by hand, and no history of restarts is longer than
-- `maxRestartsInWindow`.
pub restarts-IsLimited :
    (p : Platform) (es : List Event) → All IsLimited ((run p es empty).processes)
restarts-IsLimited p es = run-IsLimited p es empty tt
