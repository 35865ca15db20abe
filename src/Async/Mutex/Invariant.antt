-- ===== src/Async/Mutex/Invariant.antt =====
-- The mutex of include/pman/async/mutex.hpp over every history of one event loop.
use pman.Common.{
  ℕ, suc, ◌+◌, ◌≡◌, refl, sym, ap, ◌∙◌, inl, inr, Bool, true, false, List, [], ◌∷◌, ◌++◌, length,
  length-append, append_assoc, arith, Bool-cases,
}
use pman.Async.Loop.{remove_guard, length-remove_guard}
use pman.Async.Mutex.{
  System, Event, locks, tries, drops, turns, init, turn, step, run, unlock_with, deliver,
}

-- The permits in circulation: one exactly while the mutex is locked.
abbrev pub held : Bool → ℕ
held true = 1
held false = 0

pub record IsValid (s : System) : Type 0 where
  pub balance : length s.guards + length s.posted ≡ held s.mutex.locked
  pub quiet : s.mutex.locked ≡ false → s.mutex.waiters ≡ []
  pub fifo : s.suspended ≡ s.resumed ++ (s.posted ++ s.mutex.waiters)

init-IsValid : IsValid init
init-IsValid = record { balance = refl; quiet = λ e. refl; fifo = refl }

module _ (s : System) (v : IsValid s) where
  open v use {balance, quiet, fifo}

  -- The handles that a suspension or a turn moves keep their order.
  suspended-snoc :
      (i : ℕ) → s.suspended ++ i ∷ [] ≡ s.resumed ++ (s.posted ++ (s.mutex.waiters ++ i ∷ []))
  suspended-snoc i = rw fifo (simp append_assoc)

  locks-IsValid : (i : ℕ) → IsValid (step s (locks i))
  unfolding step
  locks-IsValid i = ground (arith, suspended-snoc i)

  -- With a waiter the lock passes to the oldest one, which is posted; with none it is freed.
  unlock-IsValid :
      (gs ws : List ℕ)
      → suc (length gs) ≡ length s.guards
      → s.mutex.waiters ≡ ws
      → IsValid (deliver (record s { guards = gs }) (unlock_with true ws s.mutex))
  unfolding step
  unlock-IsValid gs [] n e = ground arith
  unlock-IsValid gs (w ∷ ws) n e = record {
    balance = ground (arith, length-append s.posted (w ∷ []));
    quiet = λ u. cc (quiet u);
    fifo = fifo ∙ rw e (ap (◌++◌ s.resumed) (sym (append_assoc s.posted (w ∷ []) ws)));
  }

  drops-IsValid : (i : ℕ) → IsValid (step s (drops i))
  unfolding step
  drops-IsValid i = elim (Bool-cases (remove_guard i s.guards).0) [
    | inl e ↦ rw e (unlock-IsValid _ s.mutex.waiters (length-remove_guard i s.guards e) refl)
    | inr e ↦ rw e v
  ]

  turn-IsValid : (posted : List ℕ) → s.posted ≡ posted → IsValid (turn posted s)
  unfolding step
  turn-IsValid [] e = v
  turn-IsValid (h ∷ hs) e = record {
    balance = ground arith;
    quiet = quiet;
    fifo = fifo ∙ rw e (sym (append_assoc s.resumed (h ∷ []) (hs ++ s.mutex.waiters)));
  }

pub step-IsValid : (s : System) (e : Event) → IsValid s → IsValid (step s e)
unfolding step
step-IsValid s (locks i) v = locks-IsValid s v i
step-IsValid s (tries i) v = ground arith
step-IsValid s (drops i) v = drops-IsValid s v i
step-IsValid s turns v = turn-IsValid s v s.posted refl

pub run-IsValid : (s : System) (es : List Event) → IsValid s → IsValid (run s es)
unfolding run
run-IsValid s [] v = v
run-IsValid s (e ∷ es) v = run-IsValid (step s e) es (step-IsValid s e v)

pub reached-IsValid : (es : List Event) → IsValid (run init es)
reached-IsValid es = run-IsValid init es init-IsValid
