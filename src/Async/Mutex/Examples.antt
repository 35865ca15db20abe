-- ===== src/Async/Mutex/Examples.antt =====
-- The mutex of include/pman/async/mutex.hpp on short histories.
use pman.Common.{◌+◌, ◌≡◌, refl, false, List, [], ◌∷◌, ◌++◌, length}
use pman.Async.Mutex.{Event, locks, tries, drops, turns, init, step, run}
use pman.Async.Mutex.Invariant.{held}
use pman.Async.Mutex.Exclusion.{lock-exclusive, lock-fifo, lock-waiters}

-- Coroutine 1 owns the lock, 2 and 3 wait, and the try of 4 fails.
abbrev contended : List Event
contended = locks 1 ∷ locks 2 ∷ locks 3 ∷ tries 4 ∷ []

contended_waiters : (run init contended).mutex.waiters ≡ 2 ∷ 3 ∷ []
unfolding run step
contended_waiters = refl

handed_over : (run init (contended ++ drops 1 ∷ turns ∷ drops 2 ∷ turns ∷ [])).guards ≡ 3 ∷ []
unfolding run step
handed_over = refl

freed : (run init (tries 1 ∷ drops 1 ∷ [])).mutex.locked ≡ false
unfolding run step
freed = refl

lock-exclusive_example :
    length (run init contended).guards + length (run init contended).posted
    ≡ held (run init contended).mutex.locked
lock-exclusive_example = lock-exclusive contended

lock-fifo_example :
    let s = run init contended in s.suspended ≡ s.resumed ++ (s.posted ++ s.mutex.waiters)
lock-fifo_example = lock-fifo contended

lock-waiters_example : length (run init contended).guards + length (run init contended).posted ≡ 1
lock-waiters_example = lock-waiters contended (λ e. cc contended_waiters)
