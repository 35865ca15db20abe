-- ===== src/Sync/Mutex/Examples.antt =====
-- `FutexMutex` of src/futex.cpp at work.
use pman.Common.{
  ℕ, suc, ◌≤◌, ◌≡◌, ◌⊎◌, refl, List, [], ◌∷◌, ◌++◌, some, replicate, sum_by, if◌then◌else◌, ◌==◌,
  arith,
}
use pman.Sync.Mutex.{
  Pc, outside, asleep, holding, lock, unlock, go, go_on, call_lock, call_try_lock, call_unlock,
  interrupt, move, start, sleeps, wake_up, wakes, Step, moved, woke, move_found, step, run,
  unlocked, contended,
}
use pman.Sync.Mutex.Exclusion.{holds, run-holds}
use pman.Sync.Mutex.Sleep.{is_asleep, is_waking, IsKernel, run-asleep}

methods : Unit {0}
unfolding go_on call_lock call_try_lock call_unlock interrupt move sleeps wake_up wakes move_found
    step run sum_by
methods = tt

-- A kernel that wakes the first thread that sleeps.
first_asleep : List Pc → ℕ
unfolding sleeps
first_asleep [] = 0
first_asleep (p ∷ ps) = let rest = first_asleep ps in if sleeps (some p) then 0 else suc rest

first_asleep-IsKernel : IsKernel first_asleep
unfolding first_asleep sleeps sum_by
first_asleep-IsKernel [] h = absurd (h refl)
first_asleep-IsKernel (asleep ∷ ps) h = refl
first_asleep-IsKernel (p ∷ ps) h = first_asleep-IsKernel ps (λ z. h (omega (arith, z)))

-- A thread spins until it goes to sleep.
abbrev to_sleep : ℕ → List Step
to_sleep i = moved lock i ∷ replicate 1003 (moved go i)

abbrev two_wait : List Step
two_wait = moved lock 0 ∷ (to_sleep 1 ++ to_sleep 2)

one_asleep :
    (run first_asleep (moved lock 0 ∷ to_sleep 1) (start 2)).threads ≡ holding ∷ asleep ∷ []
unfolding methods first_asleep
one_asleep = refl

-- Of two sleepers one is woken and takes the lock as `Locked`; its `unlock` wakes nobody, and the other
-- sleeps on although the lock is free and no thread is inside.
left_asleep :
    run first_asleep
      (two_wait ++ (moved unlock 0 ∷ woke 0 ∷ moved go 1 ∷ moved go 1 ∷ moved unlock 1 ∷ []))
      (start 3)
    ≡ record { state = unlocked; threads = outside ∷ outside ∷ asleep ∷ [] }
unfolding methods first_asleep
left_asleep = refl

run-holds_example :
    sum_by holds (run first_asleep two_wait (start 3)).threads
    ≡ (if (run first_asleep two_wait (start 3)).state == 0 then 0 else 1)
run-holds_example = run-holds first_asleep 3 two_wait

one_sleeps : sum_by is_asleep (run first_asleep (moved lock 0 ∷ to_sleep 1) (start 2)).threads ≡ 1
unfolding sum_by
one_sleeps = rw one_asleep refl

run-asleep_example :
    ((run first_asleep (moved lock 0 ∷ to_sleep 1) (start 2)).state ≡ contended)
    ⊎ (1 ≤ sum_by is_waking (run first_asleep (moved lock 0 ∷ to_sleep 1) (start 2)).threads)
run-asleep_example =
    run-asleep first_asleep first_asleep-IsKernel 2 (moved lock 0 ∷ to_sleep 1) (omega arith)
      (λ h. absurd (omega (arith, h, one_sleeps)))
