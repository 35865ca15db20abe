-- ===== src/Sync/Mutex.antt =====
-- `FutexMutex` of src/futex.cpp. The kernel's choice of the thread that a wake-up reaches is a
-- parameter.
pub mod Exclusion
pub mod Sleep
mod Examples
use pman.Common.{
  ℕ, zero, suc, ◌-◌, Bool, true, false, List, [], ◌∷◌, Option, none, some, if◌then◌else◌, ◌==◌,
  replicate,
}
use pman.Sync.Threads.{get_elem?, set}

-- `State`
abbrev pub unlocked : ℕ
unlocked = 0

abbrev pub locked : ℕ
locked = 1

abbrev pub contended : ℕ
contended = 2

abbrev pub spins : ℕ
spins = 1000

-- Where a thread stands: outside; in the loop with `spins` left, and there before the
-- compare-exchange; before the exchange; before `FUTEX_WAIT`, and asleep in it; with the lock; in `unlock`, before
-- `FUTEX_WAKE`.
pub data Pc : Type 0 where
  outside : Pc
  spinning : ℕ → Pc
  trying : ℕ → Pc
  contending : Pc
  waiting : Pc
  asleep : Pc
  holding : Pc
  waking : Pc

-- What makes a thread move: its call of a function, its next instruction, or a signal that
-- interrupts its sleep.
pub data Event : Type 0 where
  lock : Event
  try_lock : Event
  unlock : Event
  go : Event
  interrupted : Event

-- The compare-exchange of `Unlocked` for `Locked`.
abbrev pub compare_exchange : ℕ → Pc → ℕ × Pc
compare_exchange state otherwise =
    if state == unlocked then (locked, holding) else (state, otherwise)

-- The next instruction of `lock`; a wake-up is a matter of the system.
pub go_on : ℕ → Pc → ℕ × Pc
go_on state outside = (state, outside)
go_on state (spinning zero) = (state, contending)
go_on state (spinning (suc n)) = (state, if state == unlocked then trying n else spinning n)
go_on state (trying n) = compare_exchange state (spinning n)
go_on state contending = (contended, if state == unlocked then holding else waiting)
go_on state waiting = (state, if state == contended then asleep else spinning spins)
go_on state asleep = (state, asleep)
go_on state holding = (state, holding)
go_on state waking = (state, waking)

pub call_lock : ℕ → Pc → ℕ × Pc
call_lock state outside = compare_exchange state (spinning spins)
call_lock state p = (state, p)

pub call_try_lock : ℕ → Pc → ℕ × Pc
call_try_lock state outside = compare_exchange state outside
call_try_lock state p = (state, p)

-- `unlock`, of a thread that has the lock.
pub call_unlock : ℕ → Pc → ℕ × Pc
call_unlock state holding = (unlocked, if state == contended then waking else outside)
call_unlock state p = (state, p)

-- `FUTEX_WAIT` fails with `EINTR` and is called again.
pub interrupt : Pc → Pc
interrupt asleep = waiting
interrupt p = p

pub move : Event → ℕ → Pc → ℕ × Pc
unfolding go_on call_lock call_try_lock call_unlock interrupt
move lock state p = call_lock state p
move try_lock state p = call_try_lock state p
move unlock state p = call_unlock state p
move go state p = go_on state p
move interrupted state p = (state, interrupt p)

pub record Mutex : Type 0 where
  pub state : ℕ
  pub threads : List Pc

abbrev pub start : ℕ → Mutex
start n = record { state = unlocked; threads = replicate n outside }

-- `FUTEX_WAKE` of one thread: the one that the kernel picks is woken, if it sleeps.
pub sleeps : Option Pc → Bool
sleeps (some asleep) = true
sleeps o = false

pub wake_up : ℕ → List Pc → List Pc
unfolding sleeps
wake_up i threads = if sleeps (get_elem? threads i) then set i (spinning spins) threads else threads

pub wakes : Option Pc → Bool
wakes (some waking) = true
wakes o = false

-- A thread moves, or its wake-up is carried out.
pub data Step : Type 0 where
  moved : Event → ℕ → Step
  woke : ℕ → Step

pub move_found : Option Pc → Event → ℕ → Mutex → Mutex
unfolding move
move_found none e i m = m
move_found (some p) e i m =
    let r = move e m.state p in record { state = r.0; threads = set i r.1 m.threads }

pub step : (List Pc → ℕ) → Step → Mutex → Mutex
unfolding move_found wakes wake_up
step pick (moved e i) m = move_found (get_elem? m.threads i) e i m
step pick (woke i) m =
    if wakes (get_elem? m.threads i)
    then record m { threads = set i outside (wake_up (pick m.threads) m.threads) }
    else m

pub run : (List Pc → ℕ) → List Step → Mutex → Mutex
unfolding step
run pick [] m = m
run pick (x ∷ xs) m = run pick xs (step pick x m)
