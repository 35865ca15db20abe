-- ===== src/Sync/RwMutex/Examples.antt =====
-- `FutexRwMutex` of src/rw_mutex.cpp at work.
use pman.Common.{ℕ, suc, ◌≡◌, ◌⊎◌, refl, List, [], ◌∷◌, some, sum_by, if◌then◌else◌}
use pman.Sync.RwMutex
use pman.Sync.RwMutex.{
  Step, moved, woke, lock_shared, unlock_shared, lock, unlock, downgrade, try_upgrade, go,
}
use pman.Sync.RwMutex.Exclusion.{reads, writes, run-exclusive}

methods : Unit {0}
unfolding RwMutex.exchange RwMutex.go_on RwMutex.call_from_outside RwMutex.call_reading
    RwMutex.call_writing RwMutex.move RwMutex.wake_shared RwMutex.sleeps RwMutex.wake_up
    RwMutex.move_found RwMutex.wake_found RwMutex.step RwMutex.run
methods = tt

first_asleep : List RwMutex.Pc → ℕ
unfolding RwMutex.sleeps
first_asleep [] = 0
first_asleep (p ∷ ps) =
    let rest = first_asleep ps in if RwMutex.sleeps (some p) then 0 else suc rest

-- A writer has the lock, and a second writer goes to sleep.
abbrev writer_sleeps : List Step
writer_sleeps =
    moved lock 0
    ∷ moved go 0
    ∷ moved go 0
    ∷ moved lock 1
    ∷ moved go 1
    ∷ moved go 1
    ∷ moved go 1
    ∷ moved go 1
    ∷ moved go 1
    ∷ []

sleeps_announced :
    (RwMutex.run first_asleep writer_sleeps (RwMutex.start 2)).threads
    ≡ RwMutex.writing ∷ RwMutex.asleep ∷ []
unfolding methods first_asleep
sleeps_announced = refl

-- `downgrade` takes away the bit of the waiting writer: the last reader wakes nobody, and the writer
-- sleeps on although the word is zero.
left_asleep :
    RwMutex.run first_asleep
      (moved lock 0
        ∷ moved go 0
        ∷ moved go 0
        ∷ moved lock 1
        ∷ moved go 1
        ∷ moved go 1
        ∷ moved go 1
        ∷ moved go 1
        ∷ moved go 1
        ∷ moved downgrade 0
        ∷ moved go 0
        ∷ woke 0
        ∷ moved unlock_shared 0
        ∷ [])
      (RwMutex.start 2)
    ≡ record {
      vars = record { state = RwMutex.zero_word; writer_futex = 0; reader_futex = 1 };
      threads = RwMutex.outside ∷ RwMutex.asleep ∷ [];
    }
unfolding methods first_asleep
left_asleep = refl

run-exclusive_example :
    (sum_by writes (RwMutex.run first_asleep writer_sleeps (RwMutex.start 2)).threads ≡ 0)
    ⊎ ((sum_by writes (RwMutex.run first_asleep writer_sleeps (RwMutex.start 2)).threads ≡ 1)
        × (sum_by reads (RwMutex.run first_asleep writer_sleeps (RwMutex.start 2)).threads ≡ 0))
run-exclusive_example = run-exclusive first_asleep 2 writer_sleeps
