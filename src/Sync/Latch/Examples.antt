-- ===== src/Sync/Latch/Examples.antt =====
-- Runs of a latch that is to open after two, with a thread that waits.
use pman.Common.{◌≡◌, ◌≤◌, refl, true, false, List, [], ◌∷◌, some, sum_by}
use pman.Common.Int.{pos, ◌-ℤ◌}
use pman.Sync.Threads.{get_elem?}
use pman.Sync.Latch.{
  asleep, new_latch, wait, go, Step, counted, bumped, woke, moved, run, try_wait, counted_down,
  go_on, move, wake, count_found, bump_found, wake_found, move_found, step,
}
use pman.Sync.Latch.Wakes.{run-opened, run-awake}
use pman.Sync.Latch.Places.{sleeps}

methods : Unit {0}
unfolding ◌-ℤ◌ sum_by counted_down go_on move wake count_found bump_found wake_found move_found step
    run try_wait
methods = tt

abbrev sleeper : List Step
sleeper = moved wait 0 ∷ moved go 0 ∷ moved go 0 ∷ moved go 0 ∷ moved go 0 ∷ []

-- The other threads count down, the last by `arrive_and_wait`.
abbrev opened : List Step
opened =
    moved wait 0
    ∷ moved go 0
    ∷ moved go 0
    ∷ moved go 0
    ∷ moved go 0
    ∷ counted (pos 1) false 1
    ∷ counted (pos 1) true 2
    ∷ bumped 2
    ∷ woke 2
    ∷ moved go 0
    ∷ moved go 2
    ∷ []

asleep_at_first : get_elem? (run sleeper (new_latch 2 3)).threads 0 ≡ some (asleep 0)
unfolding methods
asleep_at_first = refl

run-opened_example : 2 ≤ (run opened (new_latch 2 3)).counted
unfolding methods
run-opened_example = run-opened 2 3 2 opened refl

run-awake_example : sum_by sleeps (run opened (new_latch 2 3)).threads ≡ 0
unfolding methods
run-awake_example = run-awake 2 3 opened refl refl refl

-- A count below zero is an exception, and leaves the thread asleep with the latch open.
abbrev underflow : List Step
underflow =
    moved wait 0
    ∷ moved go 0
    ∷ moved go 0
    ∷ moved go 0
    ∷ moved go 0
    ∷ counted (pos 3) false 1
    ∷ bumped 1
    ∷ woke 1
    ∷ moved go 0
    ∷ []

underflow_open : try_wait (run underflow (new_latch 2 3)) ≡ true
unfolding methods
underflow_open = refl

underflow_asleep : get_elem? (run underflow (new_latch 2 3)).threads 0 ≡ some (asleep 0)
unfolding methods
underflow_asleep = refl
