-- ===== src/Sync/Once/Examples.antt =====
-- `FutexOnceFlag` of include/pman/once.hpp at work.
use pman.Common.{◌+◌, ◌≤◌, ◌≡◌, refl, List, [], ◌∷◌, sum_by, if◌then◌else◌}
use pman.Sync.Once.{
  outside, asleep, start, call_once, returns, throws, go, go_on, call, move, wake, Step, moved,
  woke, move_found, wake_found, step, run, has_run, not_started,
}
use pman.Sync.Once.Calls.{runs, run-once}

methods : Unit {0}
unfolding go_on call move wake move_found wake_found step run has_run
methods = tt

-- Thread 0 runs the function, and thread 1 goes to sleep until it is done.
abbrev one_waits : List Step
one_waits = moved call_once 0 ∷ moved call_once 1 ∷ moved go 1 ∷ moved go 1 ∷ []

woken :
    (run
      (moved call_once 0
        ∷ moved call_once 1
        ∷ moved go 1
        ∷ moved go 1
        ∷ moved returns 0
        ∷ moved go 0
        ∷ woke 0
        ∷ moved go 1
        ∷ [])
      (start 2)).threads
    ≡ outside ∷ outside ∷ []
unfolding methods
woken = refl

-- When the function throws the word is reset and nobody is woken.
left_asleep :
    run
      (moved call_once 0
        ∷ moved call_once 1
        ∷ moved go 1
        ∷ moved go 1
        ∷ moved throws 0
        ∷ moved go 0
        ∷ [])
      (start 2)
    ≡ record { state = not_started; returned = 0; threads = outside ∷ asleep ∷ [] }
unfolding methods
left_asleep = refl

run-once_example :
    (sum_by runs (run one_waits (start 2)).threads ≤ 1)
    × ((run one_waits (start 2)).returned ≤ 1)
    × ((if has_run (run one_waits (start 2)) then 1 else 0)
          + sum_by runs (run one_waits (start 2)).threads
        ≤ 1)
    × ((if has_run (run one_waits (start 2)) then 1 else 0) ≤ (run one_waits (start 2)).returned)
run-once_example = run-once 2 one_waits
