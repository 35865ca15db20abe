-- ===== src/Supervisor/Limits.antt =====
-- The limits on restarts in src/process_supervisor.cpp.
use pman.Common.{
  ℕ, subst, not, ◌+◌, ◌-◌, ◌≤◌, ◌≡◌, refl, sym, Bool, true, false, List, [], ◌∷◌, Option, none,
  some, Bool-cases, inl, inr, leb, ◌==◌, ◌&&◌, length, length-append, All, arith,
}
use pman.Common.Int.{ℤ, pos, negsuc, ltb_ℤ}
use pman.Supervisor.Process.{
  Platform, ProcessState, Supervisor, change, should_restart, cleanup_restart_history,
}
use pman.Supervisor.Calls.{try_wait, do_start, do_start_process, clear_restarts, unplan}
use pman.Supervisor.Exits.{
  record_exit, plan_restart, clean, child_exited, is_due, restart_one, restart_due,
}

-- A count within a limit, where a negative limit is none, and one where it admits only zero.
abbrev pub within : ℕ → ℤ → Bool
within n (pos m) = leb n m
within n (negsuc m) = true

abbrev pub within_window : ℕ → ℤ → Bool
within_window n (pos m) = leb n m
within_window n (negsuc m) = n == 0

pub IsLimited : ProcessState → Type 0
IsLimited s =
    (within s.status.restart_count s.restart.max_restarts ≡ true)
    × (within_window (length s.restart_times) s.restart.max_restarts_in_window ≡ true)

pub IsLimited-count :
    (m : ℕ) (s : ProcessState)
    → IsLimited s
    → s.restart.max_restarts ≡ pos m
    → s.status.restart_count ≤ m
unfolding IsLimited
IsLimited-count m s h e =
    let b = subst (λ k. within s.status.restart_count k ≡ true) e h.0 in ground (arith, b)

within-suc :
    (n : ℕ) (m : ℤ)
    → (not (ltb_ℤ m (pos 0)) && not (ltb_ℤ (pos n) m)) ≡ false
    → within (n + 1) m ≡ true
within-suc n (pos m) h = ground (arith, h)
within-suc n (negsuc m) h = refl

within_window-suc : (n : ℕ) (m : ℤ) → not (ltb_ℤ (pos n) m) ≡ false → within_window (n + 1) m ≡ true
within_window-suc n (pos m) h = ground (arith, h)
within_window-suc n (negsuc m) h = absurd (ground (arith, h))

within_window-le : (k n : ℕ) (m : ℤ) → k ≤ n → within_window n m ≡ true → within_window k m ≡ true
within_window-le k n (pos m) h w = ground (arith, h, w)
within_window-le k n (negsuc m) h w = ground (arith, h, w)

length-cleanup_restart_history :
    (a : ℕ) (ts : List ℕ) → length (cleanup_restart_history a ts) ≤ length ts
unfolding cleanup_restart_history
length-cleanup_restart_history a [] = omega arith
length-cleanup_restart_history a (t ∷ ts) = ground (arith, length-cleanup_restart_history a ts)

pub change-All :
    (P : ProcessState → Type 0) (name : ℕ) (f : ProcessState → ProcessState)
    (ss : List ProcessState)
    → ((s : ProcessState) → P s → P (f s))
    → All P ss
    → All P (change name f ss)
unfolding change
change-All P name f [] keep h = h
change-All P name f (s ∷ ss) keep h = elim (Bool-cases (s.name == name)) [
  | inl t ↦ rw t (keep s h.0, change-All P name f ss keep h.1)
  | inr t ↦ rw t (h.0, change-All P name f ss keep h.1)
]

pub do_start-IsLimited :
    (now : ℕ) (launched : Option ℕ) (s : ProcessState)
    → IsLimited s
    → IsLimited (do_start now launched s)
unfolding do_start IsLimited
do_start-IsLimited now none s h = h
do_start-IsLimited now (some pid) s h = h

pub clear_restarts-IsLimited : (s : ProcessState) → IsLimited (clear_restarts s)
unfolding clear_restarts IsLimited
clear_restarts-IsLimited s =
    (none_within s.restart.max_restarts, none_within_window s.restart.max_restarts_in_window)
  where
    none_within : (m : ℤ) → within 0 m ≡ true
    none_within (pos m) = ground arith
    none_within (negsuc m) = refl

    none_within_window : (m : ℤ) → within_window 0 m ≡ true
    none_within_window (pos m) = ground arith
    none_within_window (negsuc m) = refl

clean-IsLimited : (now : ℕ) (s : ProcessState) → IsLimited s → IsLimited (clean now s)
unfolding clean IsLimited
clean-IsLimited now s h = (
  h.0,
  within_window-le _ _ s.restart.max_restarts_in_window
      (length-cleanup_restart_history (now - s.restart.max_restart_window) s.restart_times) h.1,
)

should_restart-limits :
    (p : Platform) (exit_status : ℕ) (s : ProcessState)
    → should_restart p exit_status s ≡ true
    → ((not (ltb_ℤ s.restart.max_restarts (pos 0))
          && not (ltb_ℤ (pos s.status.restart_count) s.restart.max_restarts))
        ≡ false)
      × (not (ltb_ℤ (pos (length s.restart_times)) s.restart.max_restarts_in_window) ≡ false)
unfolding should_restart
should_restart-limits p exit_status s h = ground (arith, h)

-- A restart is planned only where both limits leave room for it.
plan_restart-IsLimited :
    (p : Platform) (now exit_status : ℕ) (s : ProcessState)
    → should_restart p exit_status s ≡ true
    → IsLimited (plan_restart p now s)
unfolding should_restart plan_restart IsLimited
plan_restart-IsLimited p now exit_status s h = (
  within-suc s.status.restart_count s.restart.max_restarts
      ((should_restart-limits p exit_status s h).0),
  subst (λ n. within_window n s.restart.max_restarts_in_window ≡ true)
      (sym (length-append s.restart_times (now ∷ [])))
      (within_window-suc (length s.restart_times) s.restart.max_restarts_in_window
        ((should_restart-limits p exit_status s h).1)),
)

pub child_exited-IsLimited :
    (p : Platform) (supervising : Bool) (now exit_status : ℕ) (s : ProcessState)
    → IsLimited s
    → IsLimited (child_exited p supervising now exit_status s)
unfolding child_exited record_exit IsLimited
child_exited-IsLimited p false now exit_status s h = h
child_exited-IsLimited p true now exit_status s h =
    elim (Bool-cases (should_restart p exit_status (clean now (record_exit now exit_status s)))) [
      | inl t ↦
          rw t
            (plan_restart-IsLimited p now exit_status (clean now (record_exit now exit_status s)) t)
      | inr t ↦ rw t (clean-IsLimited now (record_exit now exit_status s) h)
    ]

restart_one-IsLimited :
    (b : Bool) (launched : Option ℕ) (now : ℕ) (s : ProcessState) (ss : List ProcessState)
    (es : List (ℕ × ℕ))
    → (r : List ProcessState × List (ℕ × ℕ)) → All IsLimited (s ∷ ss)
    → All IsLimited r.0
    → All IsLimited ((restart_one b launched now s ss es r).0)
unfolding restart_one IsLimited unplan
restart_one-IsLimited true (some pid) now s ss es r h k =
    (do_start-IsLimited now (some pid) (unplan s) h.0, k)
restart_one-IsLimited true none now s ss es r h k =
    (do_start-IsLimited now none (unplan s) h.0, h.1)
restart_one-IsLimited false launched now s ss es r h k = (h.0, k)

pub restart_due-IsLimited :
    (now : ℕ) (launch : ℕ → Option ℕ) (ss : List ProcessState) (es : List (ℕ × ℕ))
    → All IsLimited ss
    → All IsLimited ((restart_due now launch ss es).0)
unfolding restart_due
restart_due-IsLimited now launch [] es h = h
restart_due-IsLimited now launch (s ∷ ss) es h =
    restart_one-IsLimited (is_due now s) (launch s.name) now s ss es _ h
      (restart_due-IsLimited now launch ss _ h.1)

pub started-IsLimited :
    (now : ℕ) (launched : Option ℕ) (name : ℕ) (v : Supervisor)
    → All IsLimited v.processes
    → All IsLimited ((do_start_process now launched name v).processes)
unfolding do_start_process
started-IsLimited now launched name v h =
    change-All IsLimited name (do_start now launched) v.processes (do_start-IsLimited now launched)
      h

pub unplan-IsLimited : (s : ProcessState) → IsLimited s → IsLimited (unplan s)
unfolding IsLimited unplan
unplan-IsLimited s h = h

pub try_wait-IsLimited :
    (handle exit_status : Option ℕ) (s : ProcessState)
    → IsLimited s
    → IsLimited (try_wait handle exit_status s)
unfolding try_wait IsLimited
try_wait-IsLimited (some pid) (some status) s h = h
try_wait-IsLimited (some pid) none s h = h
try_wait-IsLimited none exit_status s h = h
