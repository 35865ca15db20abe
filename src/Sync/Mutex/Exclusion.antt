-- ===== src/Sync/Mutex/Exclusion.antt =====
-- Mutual exclusion of `FutexMutex` of src/futex.cpp.
use pman.Common.{
  ℕ, zero, suc, ◌+◌, ◌≤◌, ◌≡◌, refl, true, List, [], ◌∷◌, Option, none, some, if◌then◌else◌, ◌==◌,
  sum_by, sum_by-replicate, Bool-cases, inl, inr, arith,
}
use pman.Sync.Threads.{get_elem?, set, sum_by-set, sum_by-le}
use pman.Sync.Mutex.{
  Pc, outside, spinning, trying, contending, waiting, asleep, holding, waking, Event, lock,
  try_lock, unlock, go, interrupted, go_on, call_lock, call_try_lock, call_unlock, interrupt, move,
  Mutex, start, sleeps, wake_up, wakes, Step, moved, woke, move_found, step, run, spins,
}

abbrev pub holds : Pc → ℕ
holds holding = 1
holds outside = 0
holds (spinning n) = 0
holds (trying n) = 0
holds contending = 0
holds waiting = 0
holds asleep = 0
holds waking = 0

abbrev taken : ℕ → ℕ
taken state = if state == 0 then 0 else 1

-- An instruction that takes the lock finds it free, and `unlock` leaves it free.
go_on-holds :
    (state : ℕ) (p : Pc)
    → holds ((go_on state p).1) + taken state ≡ holds p + taken ((go_on state p).0)
unfolding go_on
go_on-holds state outside = omega arith
go_on-holds state (spinning zero) = omega arith
go_on-holds state (spinning (suc n)) = ground arith
go_on-holds state (trying n) = ground arith
go_on-holds state contending = ground arith
go_on-holds state waiting = ground arith
go_on-holds state asleep = omega arith
go_on-holds state holding = omega arith
go_on-holds state waking = omega arith

move-holds :
    (e : Event) (state : ℕ) (p : Pc)
    → holds p ≤ taken state
    → holds ((move e state p).1) + taken state ≡ holds p + taken ((move e state p).0)
unfolding move call_lock call_try_lock call_unlock interrupt
move-holds lock state outside h = ground arith
move-holds lock state p h = omega arith
move-holds try_lock state outside h = ground arith
move-holds try_lock state p h = omega arith
move-holds unlock state holding h = ground (arith, h)
move-holds unlock state p h = omega arith
move-holds go state p h = go_on-holds state p
move-holds interrupted state asleep h = omega arith
move-holds interrupted state p h = omega arith

sleeps-asleep : (o : Option Pc) → sleeps o ≡ true → o ≡ some asleep
unfolding sleeps
sleeps-asleep (some asleep) h = refl
sleeps-asleep o h = absurd (ground (arith, h))

pub wakes-waking : (o : Option Pc) → wakes o ≡ true → o ≡ some waking
unfolding wakes
wakes-waking (some waking) h = refl
wakes-waking o h = absurd (ground (arith, h))

-- A wake-up turns a sleeper into a spinner, or changes nothing.
pub sum_by-wake_up :
    (w : Pc → ℕ) (i : ℕ) (ps : List Pc)
    → sum_by w (wake_up i ps) + (if sleeps (get_elem? ps i) then w asleep else 0)
      ≡ sum_by w ps + (if sleeps (get_elem? ps i) then w (spinning spins) else 0)
unfolding wake_up
sum_by-wake_up w i ps = elim (Bool-cases (sleeps (get_elem? ps i))) [
  | inl t ↦ rw t (sum_by-set w i asleep (spinning spins) ps (sleeps-asleep (get_elem? ps i) t))
  | inr t ↦ rw t refl
]

-- The thread that carries out the wake-up still stands there after it.
get_elem?-wake_up :
    (i j : ℕ) (ps : List Pc)
    → get_elem? ps i ≡ some waking
    → get_elem? (wake_up j ps) i ≡ some waking
unfolding wake_up
get_elem?-wake_up i j ps h = elim (Bool-cases (sleeps (get_elem? ps j))) [
  | inl t ↦ rw t (set-other i j ps h (sleeps-asleep (get_elem? ps j) t))
  | inr t ↦ rw t h
]
  where
    set-other :
        (i j : ℕ) (ps : List Pc)
        → get_elem? ps i ≡ some waking
        → get_elem? ps j ≡ some asleep
        → get_elem? (set j (spinning spins) ps) i ≡ some waking
    set-other i j [] h g = h
    set-other zero zero (p ∷ ps) h g = absurd (ground (arith, h, g))
    set-other zero (suc j) (p ∷ ps) h g = h
    set-other (suc i) zero (p ∷ ps) h g = h
    set-other (suc i) (suc j) (p ∷ ps) h g = set-other i j ps h g

-- What a carried-out wake-up does to a sum.
pub sum_by-woke :
    (w : Pc → ℕ) (i j : ℕ) (ps : List Pc)
    → get_elem? ps i ≡ some waking
    → sum_by w (set i outside (wake_up j ps))
        + w waking
        + (if sleeps (get_elem? ps j) then w asleep else 0)
      ≡ sum_by w ps + w outside + (if sleeps (get_elem? ps j) then w (spinning spins) else 0)
sum_by-woke w i j ps h = omega (
  arith,
  sum_by-wake_up w j ps,
  sum_by-set w i waking outside (wake_up j ps) (get_elem?-wake_up i j ps h),
)

abbrev Owned : Mutex → Type 0
Owned m = sum_by holds m.threads ≡ taken m.state

module _ (pick : List Pc → ℕ) where
  move_found-Owned :
      (o : Option Pc) (e : Event) (i : ℕ) (m : Mutex)
      → get_elem? m.threads i ≡ o
      → Owned m
      → Owned (move_found o e i m)
  unfolding move_found
  move_found-Owned none e i m h own = own
  move_found-Owned (some p) e i m h own =
      let few : holds p ≤ taken m.state = omega (arith, own, sum_by-le holds i p m.threads h) in
      omega (
        arith,
        own,
        move-holds e m.state p few,
        sum_by-set holds i p ((move e m.state p).1) m.threads h,
      )

  step-Owned : (x : Step) (m : Mutex) → Owned m → Owned (step pick x m)
  unfolding step
  step-Owned (moved e i) m own = move_found-Owned (get_elem? m.threads i) e i m refl own
  step-Owned (woke i) m own = elim (Bool-cases (wakes (get_elem? m.threads i))) [
    | inl t ↦
        let sum =
          sum_by-woke holds i (pick m.threads) m.threads (wakes-waking (get_elem? m.threads i) t) in
        rw t (ground (arith, own, sum))
    | inr t ↦ rw t own
  ]

  run-Owned : (xs : List Step) (m : Mutex) → Owned m → Owned (run pick xs m)
  unfolding run
  run-Owned [] m own = own
  run-Owned (x ∷ xs) m own = run-Owned xs (step pick x m) (step-Owned x m own)

  -- Whatever the threads do and in whatever order, and whichever sleeper the kernel wakes: one thread has
  -- the lock while its word is not `Unlocked`, and none while it is.
  pub run-holds :
      (n : ℕ) (xs : List Step)
      → sum_by holds (run pick xs (start n)).threads ≡ taken (run pick xs (start n)).state
  run-holds n xs = run-Owned xs (start n) (sum_by-replicate holds n outside refl)
