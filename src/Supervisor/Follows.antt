-- ===== src/Supervisor/Follows.antt =====
-- What an event of src/process_supervisor.cpp does to each process: its count of restarts, and whether one is
-- planned.
use pman.Common.{
  ℕ, ◌+◌, ◌≤◌, ◌≡◌, refl, ◌∙◌, Bool, true, false, not, ◌&&◌, List, [], ◌∷◌, Option, none, some,
  Bool-cases, inl, inr, if◌then◌else◌, ◌==◌, arith,
}
use pman.Supervisor.Process.{
  Platform, ProcessState, Supervisor, find, change, should_restart, name_of,
}
use pman.Supervisor.Calls.{
  do_start, do_start_process, start_unless, start_found, start_process, unplan, stop_found,
  stop_process, start, start_all, start_one, stop, stop_gracefully, try_wait, poll_round,
  poll_rounds,
}
use pman.Supervisor.Exits.{
  record_exit, plan_restart, clean, child_exited, exit_found, handle_child_exit, is_due,
  restart_one, restart_due, restart_round, link_due,
}
use pman.Supervisor.System.{Event, step, or_else}
use pman.Supervisor.Stopped.{is_planned}

abbrev pub count_of : Option ProcessState → ℕ
count_of none = 0
count_of (some s) = s.status.restart_count

-- The calls that set the count of a process anew.
abbrev pub keeps_counts : Event → Bool
keeps_counts (Event.added name rc) = false
keeps_counts (Event.removed name after) = false
keeps_counts (Event.restarted now launched name) = false
keeps_counts e = true

abbrev pub is_round : Event → Bool
is_round (Event.round now launch) = true
is_round e = false

abbrev pub one_if : Bool → ℕ
one_if true = 1
one_if false = 0

-- A process whose restart is planned before a round of the loop, and not after it, was started in it.
abbrev pub made_by : Event → Option ProcessState → Option ProcessState → ℕ
made_by e o o' = if is_round e && (is_planned o && not (is_planned o')) then 1 else 0

-- What an event does to a process: the restart that it makes was planned before, and one that it plans is
-- counted.
abbrev pub Counted : Bool → Option ProcessState → Option ProcessState → Type 0
Counted round o o' =
    one_if (round && (is_planned o && not (is_planned o'))) + one_if (is_planned o') + count_of o
    ≤ count_of o' + one_if (is_planned o)

abbrev pub Follows : Bool → ProcessState → ProcessState → Type 0
Follows round s s' = (s'.name ≡ s.name) × Counted round (some s) (some s')

abbrev pub AllFollow : Bool → List ProcessState → List ProcessState → Type 0
AllFollow round [] [] = Unit {0}
AllFollow round (s ∷ ss) (s' ∷ ss') = Follows round s s' × AllFollow round ss ss'
AllFollow round [] (s' ∷ ss') = ⊥
AllFollow round (s ∷ ss) [] = ⊥

pub same-Follows : (round : Bool) (s : ProcessState) → Follows round s s
same-Follows round s = (refl, ground arith)

pub AllFollow-refl : (round : Bool) (ss : List ProcessState) → AllFollow round ss ss
AllFollow-refl round [] = tt
AllFollow-refl round (s ∷ ss) = (same-Follows round s, AllFollow-refl round ss)

pub AllFollow-find :
    (round : Bool) (name : ℕ) (ss ss' : List ProcessState)
    → AllFollow round ss ss'
    → Counted round (find name ss) (find name ss')
unfolding find
AllFollow-find round name [] [] h = ground arith
AllFollow-find round name [] (s' ∷ ss') h = absurd h
AllFollow-find round name (s ∷ ss) [] h = absurd h
AllFollow-find round name (s ∷ ss) (s' ∷ ss') h = elim (Bool-cases (s.name == name)) [
  | inl t ↦ let t' : (s'.name == name) ≡ true = rw (h.0.0) t in rw (t, t') h.0.1
  | inr t ↦
      let t' : (s'.name == name) ≡ false = rw (h.0.0) t in
      rw (t, t') (AllFollow-find round name ss ss' h.1)
]

pub change-AllFollow :
    (name : ℕ) (f : ProcessState → ProcessState) (ss : List ProcessState)
    → ((s : ProcessState) → Follows false s (f s))
    → AllFollow false ss (change name f ss)
unfolding change
change-AllFollow name f [] h = tt
change-AllFollow name f (s ∷ ss) h = elim (Bool-cases (s.name == name)) [
  | inl t ↦ rw t (h s, change-AllFollow name f ss h)
  | inr t ↦ rw t (same-Follows false s, change-AllFollow name f ss h)
]

pub do_start-Follows :
    (now : ℕ) (launched : Option ℕ) (s : ProcessState) → Follows false s (do_start now launched s)
unfolding do_start
do_start-Follows now none s = (refl, ground arith)
do_start-Follows now (some pid) s = (refl, ground arith)

pub unplan-Follows : (s : ProcessState) → Follows false s (unplan s)
unfolding unplan
unplan-Follows s = (refl, ground arith)

pub try_wait-Follows :
    (handle exited : Option ℕ) (s : ProcessState) → Follows false s (try_wait handle exited s)
unfolding try_wait
try_wait-Follows (some pid) (some status) s = (refl, ground arith)
try_wait-Follows (some pid) none s = (refl, ground arith)
try_wait-Follows none exited s = (refl, ground arith)

pub child_exited-Follows :
    (p : Platform) (supervising : Bool) (now exit_status : ℕ) (s : ProcessState)
    → Follows false s (child_exited p supervising now exit_status s)
unfolding child_exited record_exit clean plan_restart
child_exited-Follows p false now exit_status s = (refl, ground arith)
child_exited-Follows p true now exit_status s =
    elim (Bool-cases (should_restart p exit_status (clean now (record_exit now exit_status s)))) [
      | inl t ↦ rw t (refl, ground arith)
      | inr t ↦ rw t (refl, ground arith)
    ]

pub restart_one-AllFollow :
    (due : Bool) (launched : Option ℕ) (now : ℕ) (s : ProcessState) (ss : List ProcessState)
    (es : List (ℕ × ℕ)) (r : List ProcessState × List (ℕ × ℕ))
    → (due ≡ true → s.pending_restart ≡ true)
    → AllFollow true ss r.0
    → AllFollow true (s ∷ ss) (restart_one due launched now s ss es r).0
unfolding restart_one unplan do_start
restart_one-AllFollow true (some pid) now s ss es r h k = ((refl, ground (arith, h refl)), k)
restart_one-AllFollow true none now s ss es r h k =
    ((refl, ground (arith, h refl)), AllFollow-refl true ss)
restart_one-AllFollow false launched now s ss es r h k = (same-Follows true s, k)

pub restart_due-AllFollow :
    (now : ℕ) (launch : ℕ → Option ℕ) (ss : List ProcessState) (es : List (ℕ × ℕ))
    → AllFollow true ss (restart_due now launch ss es).0
unfolding restart_due is_due
restart_due-AllFollow now launch [] es = tt
restart_due-AllFollow now launch (s ∷ ss) es =
    restart_one-AllFollow (is_due now s) (launch s.name) now s ss es _ (λ t. ground (arith, t))
      (restart_due-AllFollow now launch ss (link_due (is_due now s) (launch s.name) s.name es))

pub start_one-AllFollow :
    (launched : Option ℕ) (now : ℕ) (s : ProcessState) (ss : List ProcessState) (es : List (ℕ × ℕ))
    (r : List ProcessState × List (ℕ × ℕ) × Bool)
    → AllFollow false ss r.0
    → AllFollow false (s ∷ ss) (start_one launched now s ss es r).0
unfolding start_one
start_one-AllFollow (some pid) now s ss es r k = (do_start-Follows now (some pid) s, k)
start_one-AllFollow none now s ss es r k = (do_start-Follows now none s, AllFollow-refl false ss)

pub start_all-AllFollow :
    (now : ℕ) (launch : ℕ → Option ℕ) (ss : List ProcessState) (es : List (ℕ × ℕ))
    → AllFollow false ss (start_all now launch ss es).0
unfolding start_all
start_all-AllFollow now launch [] es = tt
start_all-AllFollow now launch (s ∷ ss) es =
    start_one-AllFollow (launch s.name) now s ss es _ (start_all-AllFollow now launch ss _)

pub Follows-trans :
    (a b c : ProcessState) → Follows false a b → Follows false b c → Follows false a c
Follows-trans a b c h k = (k.0 ∙ h.0, omega (arith, h.1, k.1))

pub AllFollow-trans :
    (xs ys zs : List ProcessState)
    → AllFollow false xs ys
    → AllFollow false ys zs
    → AllFollow false xs zs
AllFollow-trans [] [] [] h k = tt
AllFollow-trans [] [] (c ∷ zs) h k = absurd k
AllFollow-trans [] (b ∷ ys) zs h k = absurd h
AllFollow-trans (a ∷ xs) [] zs h k = absurd h
AllFollow-trans (a ∷ xs) (b ∷ ys) [] h k = absurd k
AllFollow-trans (a ∷ xs) (b ∷ ys) (c ∷ zs) h k =
    (Follows-trans a b c h.0 k.0, AllFollow-trans xs ys zs h.1 k.1)

pub poll_round-AllFollow :
    (exits : ℕ → Option ℕ) (ss : List ProcessState) → AllFollow false ss (poll_round exits ss).1
unfolding poll_round
poll_round-AllFollow exits [] = tt
poll_round-AllFollow exits (s ∷ ss) =
    (try_wait-Follows s.handle (exits s.name) s, poll_round-AllFollow exits ss)

pub poll_rounds-AllFollow :
    (rounds : List (ℕ → Option ℕ)) (ss : List ProcessState)
    → AllFollow false ss (poll_rounds rounds ss)
unfolding poll_rounds
poll_rounds-AllFollow [] ss = AllFollow-refl false ss
poll_rounds-AllFollow (exits ∷ rounds) ss = elim (Bool-cases ((poll_round exits ss).0)) [
  | inl t ↦ rw t (poll_round-AllFollow exits ss)
  | inr t ↦ rw t (
      AllFollow-trans ss ((poll_round exits ss).1) _ (poll_round-AllFollow exits ss)
        (poll_rounds-AllFollow rounds ((poll_round exits ss).1)))
]

pub start_unless-AllFollow :
    (handle : Option ℕ) (now : ℕ) (launched : Option ℕ) (name : ℕ) (v : Supervisor)
    → AllFollow false v.processes ((start_unless handle now launched name v).processes)
unfolding start_unless do_start_process
start_unless-AllFollow (some pid) now launched name v = AllFollow-refl false v.processes
start_unless-AllFollow none now launched name v =
    change-AllFollow name (do_start now launched) v.processes (do_start-Follows now launched)

pub start_found-AllFollow :
    (now : ℕ) (launched : Option ℕ) (name : ℕ) (o : Option ProcessState) (v : Supervisor)
    → AllFollow false v.processes ((or_else (start_found now launched name o v) v).processes)
unfolding start_found
start_found-AllFollow now launched name none v = AllFollow-refl false v.processes
start_found-AllFollow now launched name (some s) v =
    start_unless-AllFollow s.handle now launched name v

pub stop_found-AllFollow :
    (name : ℕ) (o : Option ProcessState) (v : Supervisor)
    → AllFollow false v.processes ((or_else (stop_found name o v) v).processes)
unfolding stop_found
stop_found-AllFollow name none v = AllFollow-refl false v.processes
stop_found-AllFollow name (some s) v = change-AllFollow name unplan v.processes unplan-Follows

pub exit_found-AllFollow :
    (p : Platform) (now pid exit_status : ℕ) (o : Option ℕ) (v : Supervisor)
    → AllFollow false v.processes ((exit_found p now pid exit_status o v).processes)
unfolding exit_found
exit_found-AllFollow p now pid exit_status none v = AllFollow-refl false v.processes
exit_found-AllFollow p now pid exit_status (some name) v =
    change-AllFollow name (child_exited p v.running now exit_status) v.processes
      (child_exited-Follows p v.running now exit_status)

pub start-AllFollow :
    (now : ℕ) (launch : ℕ → Option ℕ) (v : Supervisor)
    → AllFollow false v.processes ((start now launch v).processes)
unfolding start
start-AllFollow now launch v = elim (Bool-cases v.running) [
  | inl t ↦ rw t (AllFollow-refl false v.processes)
  | inr t ↦ rw t (start_all-AllFollow now launch v.processes v.pid_to_name)
]

pub step-AllFollow :
    (p : Platform) (e : Event) (v : Supervisor)
    → keeps_counts e ≡ true
    → AllFollow (is_round e) v.processes ((step p e v).processes)
unfolding step stop stop_gracefully start_process stop_process handle_child_exit restart_round
step-AllFollow p (Event.added name rc) v h = absurd (ground (arith, h))
step-AllFollow p (Event.removed name after) v h = absurd (ground (arith, h))
step-AllFollow p (Event.restarted now launched name) v h = absurd (ground (arith, h))
step-AllFollow p (Event.all_started now launch) v h = start-AllFollow now launch v
step-AllFollow p Event.all_stopped v h = AllFollow-refl false v.processes
step-AllFollow p (Event.all_stopped_gracefully rounds) v h =
    poll_rounds-AllFollow rounds v.processes
step-AllFollow p (Event.started now launched name) v h =
    start_found-AllFollow now launched name (find name v.processes) v
step-AllFollow p (Event.stopped name) v h = stop_found-AllFollow name (find name v.processes) v
step-AllFollow p (Event.exited now pid exit_status) v h =
    exit_found-AllFollow p now pid exit_status (name_of pid v.pid_to_name) v
step-AllFollow p (Event.round now launch) v h =
    restart_due-AllFollow now launch v.processes v.pid_to_name
