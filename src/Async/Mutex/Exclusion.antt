-- ===== src/Async/Mutex/Exclusion.antt =====
-- What the mutex of include/pman/async/mutex.hpp promises the coroutines that share it.
use pman.Common.{
  ℕ, ◌+◌, ◌≡◌, ◌≢◌, true, eq-nil, List, [], ◌∷◌, ◌++◌, length, arith, Bool-cases, inl, inr,
}
use pman.Async.Loop.{remove_guard, length-remove_guard}
use pman.Async.Mutex.{System, Event, drops, init, step, run}
use pman.Async.Mutex.Invariant.{held, IsValid, reached-IsValid}

-- After any history the guards that are alive and the handles that are posted number one together
-- while the mutex is locked, and none while it is unlocked: two coroutines never own it at once.
pub lock-exclusive :
    (es : List Event)
    → length (run init es).guards + length (run init es).posted ≡ held (run init es).mutex.locked
lock-exclusive es = (reached-IsValid es).balance

-- After any history the suspended coroutines, in the order of suspension, are those that have
-- been resumed, then those that are posted, then those that wait: the mutex is first come, first
-- served, and forgets nobody.
pub lock-fifo :
    (es : List Event)
    → let s = run init es in s.suspended ≡ s.resumed ++ (s.posted ++ s.mutex.waiters)
lock-fifo es = (reached-IsValid es).fifo

waiters-locked : (s : System) → IsValid s → s.mutex.waiters ≢ [] → s.mutex.locked ≡ true
waiters-locked s v h = elim (Bool-cases s.mutex.locked) [
  | inl e ↦ e
  | inr e ↦ absurd (h (v.quiet e))
]

-- After any history with a waiter left, one guard is alive or one waiter is posted: the wake-up
-- of those that wait is never lost.
pub lock-waiters :
    (es : List Event)
    → (run init es).mutex.waiters ≢ []
    → length (run init es).guards + length (run init es).posted ≡ 1
lock-waiters es h =
    let v = reached-IsValid es in
    let e = waiters-locked (run init es) v h in ground (arith, v.balance)

drop_lem :
    (s : System) (i w : ℕ) (ws : List ℕ)
    → IsValid s
    → (remove_guard i s.guards).0 ≡ true
    → s.mutex.waiters ≡ w ∷ ws
    → let t = step s (drops i) in
      (t.mutex.locked ≡ true) × (t.mutex.waiters ≡ ws) × (t.posted ≡ w ∷ []) × (t.guards ≡ [])
unfolding step
drop_lem s i w ws v g e =
    let busy : s.mutex.waiters ≢ [] = λ n. cc in
    ground (
      arith,
      v.balance,
      length-remove_guard i s.guards g,
      waiters-locked s v busy,
      eq-nil s.posted,
      eq-nil (remove_guard i s.guards).1,
    )

-- When, after any history, a coroutine destroys the guard that it owns, the lock passes to the
-- oldest waiter, which is posted while the mutex stays locked and nobody owns a guard.
pub drop-hands_over :
    (es : List Event) (i w : ℕ) (ws : List ℕ)
    → (remove_guard i (run init es).guards).0 ≡ true
    → (run init es).mutex.waiters ≡ w ∷ ws
    → let t = step (run init es) (drops i) in
      (t.mutex.locked ≡ true) × (t.mutex.waiters ≡ ws) × (t.posted ≡ w ∷ []) × (t.guards ≡ [])
drop-hands_over es i w ws g e = drop_lem (run init es) i w ws (reached-IsValid es) g e
