-- ===== src/Async/Semaphore/Examples.antt =====
-- The semaphore of include/pman/async/semaphore.hpp on short histories.
use pman.Common.{◌+◌, ◌≡◌, refl, List, [], ◌∷◌, ◌++◌, length, arith}
use pman.Async.Semaphore.{Event, acquires, tries, releases, turns, init, step, run}
use pman.Async.Semaphore.Permits.{permits_conserved}

-- Of two permits coroutine 1 and a try take one each; 2 and 3 wait; one is released.
abbrev busy : List Event
busy = acquires 1 ∷ tries ∷ acquires 2 ∷ acquires 3 ∷ releases ∷ []

busy_posted : (run (init 2) busy).posted ≡ 2 ∷ []
unfolding run step
busy_posted = refl

all_back :
    (run (init 2) (busy ++ turns ∷ releases ∷ turns ∷ releases ∷ releases ∷ [])).sem.count ≡ 2
unfolding run step
all_back = refl

permits_conserved_example :
    let s = run (init 2) busy in
    (s.sem.count + s.permits + length s.posted ≡ s.sem.capacity) × (s.sem.capacity ≡ 2)
permits_conserved_example = permits_conserved 2 busy (omega arith)
