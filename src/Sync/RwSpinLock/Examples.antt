-- ===== src/Sync/RwSpinLock/Examples.antt =====
-- Readers and a writer of a `RwSpinLock`.
use pman.Common.{ℕ, ◌≤◌, ◌≡◌, ◌⊎◌, refl, List, [], ◌∷◌, sum_by}
use pman.Common.Int.{pos, ◌-ℤ◌, ◌+ℤ◌}
use pman.Sync.RwSpinLock.{
  claiming, reader, new_lock, Event, lock_shared, lock, go, go_on, move, move_found, run,
}
use pman.Sync.RwSpinLock.Exclusion.{reads, writes, run-one_writer}

abbrev two_readers : List (Event × ℕ)
two_readers =
    (lock_shared, 0)
    ∷ (lock_shared, 1)
    ∷ (go, 0)
    ∷ (go, 0)
    ∷ (lock, 2)
    ∷ (go, 2)
    ∷ (go, 1)
    ∷ (go, 1)
    ∷ []

writer_spins :
    run two_readers (new_lock 3)
    ≡ record { state = pos 2; threads = reader ∷ reader ∷ claiming ∷ [] }
unfolding ◌+ℤ◌ ◌-ℤ◌ go_on move move_found run
writer_spins = refl

run-one_writer_example :
    (sum_by writes (run two_readers (new_lock 3)).threads ≤ 1)
    × (sum_by writes (run two_readers (new_lock 3)).threads ≡ 0
        ⊎ sum_by reads (run two_readers (new_lock 3)).threads ≡ 0)
run-one_writer_example = run-one_writer 3 two_readers
