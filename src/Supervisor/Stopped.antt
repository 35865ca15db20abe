-- ===== src/Supervisor/Stopped.antt =====
-- A process that was stopped by hand, in src/process_supervisor.cpp, is not started again by the supervisor.
use pman.Common.{
  ℕ, subst, ◌≡◌, ◌≢◌, refl, sym, ap, ◌∙◌, Bool, true, false, List, [], ◌∷◌, Option, none, some,
  Bool-cases, inl, inr, ◌==◌, All, arith,
}
use pman.Supervisor.Process.{Platform, ProcessState, Supervisor, find, change, name_of}
use pman.Supervisor.Calls.{stop_process, stop_found, unplan, forget_handle}
use pman.Supervisor.Exits.{handle_child_exit, restart_round}
use pman.Supervisor.System.{step, or_else, run, Event}
use pman.Supervisor.Passed.{
  Unplanned, Unlinked, PassedBy, name_of-erase, no_name, other_name, exit_found-PassedBy,
  restart_due-PassedBy,
}

-- The events that are no calls: the exit of a child, and a round over the restarts that are due.
abbrev pub in_background : Event → Bool
in_background (Event.added name rc) = false
in_background (Event.removed name after) = false
in_background (Event.all_started now launch) = false
in_background Event.all_stopped = false
in_background (Event.all_stopped_gracefully rounds) = false
in_background (Event.started now launched name) = false
in_background (Event.stopped name) = false
in_background (Event.restarted now launched name) = false
in_background (Event.exited now pid exit_status) = true
in_background (Event.round now launch) = true

step-PassedBy :
    (n : ℕ) (p : Platform) (e : Event) (v : Supervisor)
    → in_background e ≡ true
    → All (Unplanned n) v.processes
    → Unlinked n v.pid_to_name
    → let w = step p e v in PassedBy n v.processes (w.processes, w.pid_to_name)
unfolding step handle_child_exit restart_round
step-PassedBy n p (Event.added name rc) v b h u = absurd (ground (arith, b))
step-PassedBy n p (Event.removed name after) v b h u = absurd (ground (arith, b))
step-PassedBy n p (Event.all_started now launch) v b h u = absurd (ground (arith, b))
step-PassedBy n p Event.all_stopped v b h u = absurd (ground (arith, b))
step-PassedBy n p (Event.all_stopped_gracefully rounds) v b h u = absurd (ground (arith, b))
step-PassedBy n p (Event.started now launched name) v b h u = absurd (ground (arith, b))
step-PassedBy n p (Event.stopped name) v b h u = absurd (ground (arith, b))
step-PassedBy n p (Event.restarted now launched name) v b h u = absurd (ground (arith, b))
step-PassedBy n p (Event.exited now pid exit_status) v b h u =
    exit_found-PassedBy n p now pid exit_status (name_of pid v.pid_to_name) v (u pid) h u
step-PassedBy n p (Event.round now launch) v b h u =
    restart_due-PassedBy n now launch v.processes v.pid_to_name h u

run-unchanged :
    (n : ℕ) (p : Platform) (es : List Event) (v : Supervisor)
    → All (λ e. in_background e ≡ true) es
    → All (Unplanned n) v.processes
    → Unlinked n v.pid_to_name
    → find n ((run p es v).processes) ≡ find n v.processes
unfolding run
run-unchanged n p [] v b h u = refl
run-unchanged n p (e ∷ es) v b h u =
    let one = step-PassedBy n p e v b.0 h u in
    run-unchanged n p es (step p e v) b.1 one.1 one.2 ∙ one.0

-- The pids of a name are the one of its handle.
abbrev pub LinkedBy : Option ProcessState → ℕ → List (ℕ × ℕ) → Type 0
LinkedBy none n es = Unlinked n es
LinkedBy (some s) n es = (pid : ℕ) → name_of pid es ≡ some n → s.handle ≡ some pid

unplan-Unplanned : (n : ℕ) (ss : List ProcessState) → All (Unplanned n) (change n unplan ss)
unfolding change unplan
unplan-Unplanned n [] = tt
unplan-Unplanned n (s ∷ ss) = elim (Bool-cases (s.name == n)) [
  | inl t ↦ rw t (ground arith, unplan-Unplanned n ss)
  | inr t ↦ rw t (ground (arith, t), unplan-Unplanned n ss)
]

forget_handle-Unlinked :
    (n : ℕ) (o : Option ℕ) (es : List (ℕ × ℕ))
    → ((pid : ℕ) → name_of pid es ≡ some n → o ≡ some pid)
    → Unlinked n (forget_handle o es)
unfolding forget_handle
forget_handle-Unlinked n none es k q h = no_name q (sym (k q h))
forget_handle-Unlinked n (some p) es k q h = elim (Bool-cases (q == p)) [
  | inl t ↦ no_name n (sym h ∙ name_of-erase p q es ∙ rw t refl)
  | inr t ↦ other_name q p (ground (arith, t)) (k q (sym (name_of-erase p q es ∙ rw t refl) ∙ h))
]

stop_found-quiet :
    (name : ℕ) (o : Option ProcessState) (v : Supervisor)
    → LinkedBy o name v.pid_to_name
    → let v' = or_else (stop_found name o v) v in
      (o ≢ none) → All (Unplanned name) v'.processes × Unlinked name v'.pid_to_name
unfolding stop_found
stop_found-quiet name none v l k = absurd (k refl)
stop_found-quiet name (some s) v l k =
    (unplan-Unplanned name v.processes, forget_handle-Unlinked name s.handle v.pid_to_name l)

-- What a start of a process would change, and whether one is planned: its handle, when it was started last, how
-- often it was started again, and when. The exit of the child is not part of it.
abbrev pub started_of : Option ProcessState → Option ℕ × ℕ × ℕ × List ℕ
started_of none = (none, 0, 0, [])
started_of (some s) = (s.handle, s.status.last_start_time, s.status.restart_count, s.restart_times)

abbrev pub is_planned : Option ProcessState → Bool
is_planned none = false
is_planned (some s) = s.pending_restart

find-Unplanned :
    (n : ℕ) (ss : List ProcessState) → All (Unplanned n) ss → is_planned (find n ss) ≡ false
unfolding find
find-Unplanned n [] all = refl
find-Unplanned n (s ∷ ss) all = elim (Bool-cases (s.name == n)) [
  | inl t ↦ rw t (ground (arith, all.0, t))
  | inr t ↦ rw t (find-Unplanned n ss all.1)
]

find-unplan :
    (n : ℕ) (ss : List ProcessState)
    → started_of (find n (change n unplan ss)) ≡ started_of (find n ss)
unfolding find change unplan
find-unplan n [] = refl
find-unplan n (s ∷ ss) = elim (Bool-cases (s.name == n)) [
  | inl t ↦ rw (t, t) refl
  | inr t ↦ rw (t, t) (find-unplan n ss)
]

stop_found-started :
    (name : ℕ) (o : Option ProcessState) (v : Supervisor)
    → started_of (find name ((or_else (stop_found name o v) v).processes))
      ≡ started_of (find name v.processes)
unfolding stop_found
stop_found-started name none v = refl
stop_found-started name (some s) v = find-unplan name v.processes

-- After `stopProcess` a process is not started again, whichever children exit with whichever status, and
-- however often the supervisor looks for restarts that are due: none is planned for it, and its handle, its
-- last start and its restarts stay as they are. No pid but that of its handle may be on record for it before.
pub stopped-not_started :
    (p : Platform) (name : ℕ) (v v' : Supervisor) (es : List Event)
    → LinkedBy (find name v.processes) name v.pid_to_name
    → stop_process name v ≡ some v'
    → All (λ e. in_background e ≡ true) es
    → (is_planned (find name ((run p es v').processes)) ≡ false)
      × (started_of (find name ((run p es v').processes)) ≡ started_of (find name v.processes))
unfolding stop_process stop_found
stopped-not_started p name v v' es l h b =
    let same = run-unchanged name p es v' b quiet.0 quiet.1 in
    (ap is_planned same ∙ find-Unplanned name v'.processes quiet.0, ap started_of same ∙ unplanned)
  where
    found : find name v.processes ≢ none
    found k = no_name v' (sym h ∙ ap (λ o. stop_found name o v) k)

    quiet : All (Unplanned name) v'.processes × Unlinked name v'.pid_to_name
    quiet =
        subst
          (λ o.
            All (Unplanned name) ((or_else o v).processes)
            × Unlinked name ((or_else o v).pid_to_name))
          h (stop_found-quiet name (find name v.processes) v l found)

    unplanned : started_of (find name v'.processes) ≡ started_of (find name v.processes)
    unplanned =
        subst
          (λ o.
            started_of (find name ((or_else o v).processes)) ≡ started_of (find name v.processes))
          h (stop_found-started name (find name v.processes) v)
