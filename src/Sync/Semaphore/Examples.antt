-- ===== src/Sync/Semaphore/Examples.antt =====
-- A semaphore without permits, with a thread that sleeps until another releases two.
use pman.Common.{◌+◌, ◌≡◌, ◌^◌, ◌-◌, arith, refl, List, [], ◌∷◌, sum_by}
use pman.Common.Int.{pos, pos_part, neg_part, ◌-ℤ◌, ◌+ℤ◌}
use pman.Sync.Semaphore.{
  forever, outside, new_semaphore, call, release, go, Step, moved, woke, run, looked, used_up,
  acquire_one, to_int, go_on, released_by, move, wake_found, wake, move_found, woke_found, step,
}
use pman.Sync.Semaphore.Permits.{joined, run-conserved}

methods : Unit {0}
unfolding ◌-ℤ◌ ◌+ℤ◌ looked used_up acquire_one to_int go_on released_by move wake_found wake
    move_found woke_found step run
methods = tt

abbrev handed_over : List Step
handed_over =
    moved (call forever) 0
    ∷ moved go 0
    ∷ moved go 0
    ∷ moved go 0
    ∷ moved go 0
    ∷ moved (release (pos 2)) 1
    ∷ moved go 1
    ∷ woke 1 (0 ∷ [])
    ∷ moved go 0
    ∷ moved go 0
    ∷ moved go 0
    ∷ []

acquired_one : run handed_over (new_semaphore 0 2) ≡ record {
  words = record { count = pos 1; waiters = 0; acquired = 1; released = 2; underflows = 0 };
  threads = outside ∷ outside ∷ [];
}
unfolding methods
acquired_one = refl

run-conserved_example :
    (neg_part (run handed_over (new_semaphore 0 2)).words.count ≡ 0)
    × ((run handed_over (new_semaphore 0 2)).words.underflows ≡ 0)
    × (pos_part (run handed_over (new_semaphore 0 2)).words.count
          + (run handed_over (new_semaphore 0 2)).words.acquired
        ≡ 0 + (run handed_over (new_semaphore 0 2)).words.released)
    × ((run handed_over (new_semaphore 0 2)).words.waiters
        ≡ sum_by joined (run handed_over (new_semaphore 0 2)).threads)
unfolding methods
run-conserved_example = run-conserved 0 2 handed_over (omega arith)

-- A release that goes over the greatest `int` leaves a negative count, and the next throws.
overflown :
    (run
      (moved (release (pos 1)) 0 ∷ moved go 0 ∷ moved (release (pos 1)) 0 ∷ [])
      (new_semaphore (2 ^ 31 - 1) 1)).words.underflows
    ≡ 1
unfolding methods
overflown = refl
