-- ===== src/Sync/Latch.antt =====
-- `FutexLatch` of include/pman/latch.hpp and src/latch.cpp.
pub mod Places
pub mod Wakes
mod Examples
use pman.Common.{
  ℕ, ◌+◌, ◌-◌, Bool, true, false, List, [], ◌∷◌, Option, none, some, if◌then◌else◌, not, ◌==◌, leb,
  replicate, map,
}
use pman.Common.Int.{ℤ, pos, negsuc, ltb_ℤ, eqb_ℤ, ◌-ℤ◌}
use pman.Sync.Threads.{get_elem?, set}

-- Where a thread stands: outside; in `count_down`, before the `fetch_add`, and before the wake-up, with
-- whether it is called by `arrive_and_wait`; in `wait`, before the first load of the counter, before
-- the load of the sequence number, before the second load of the counter, before `FUTEX_WAIT`, and
-- asleep; after `wait`.
pub data Pc : Type 0 where
  outside : Pc
  bumping : Bool → Pc
  waking : Bool → Pc
  loading : Pc
  reading : Pc
  checking : ℕ → Pc
  waiting : ℕ → Pc
  asleep : ℕ → Pc
  returned : Pc

-- The counter and the sequence number, with the sum of what the calls counted down.
pub record Latch : Type 0 where
  pub counter : ℤ
  pub futex : ℕ
  pub counted : ℕ
  pub threads : List Pc

-- The constructor, for an expected count that is not negative.
abbrev pub new_latch : ℕ → ℕ → Latch
new_latch expected n = record {
  counter = pos expected;
  futex = 0;
  counted = 0;
  threads = replicate n outside;
}

-- `<= 0`
pub is_open : ℤ → Bool
is_open z = not (ltb_ℤ (pos 0) z)

-- After `count_down`.
pub after : Bool → Pc
after true = loading
after false = outside

-- What `count_down` does once it has the old counter; the exception `logic_error` ends the call.
pub counted_down : ℤ → ℕ → Bool → Pc
unfolding after
counted_down old n waits =
    if eqb_ℤ old (pos n)
    then bumping waits
    else (if ltb_ℤ old (pos n) then outside else after waits)

-- `wait` is called, a thread makes its next step, or a signal interrupts `FUTEX_WAIT`, which is
-- called again.
pub data Event : Type 0 where
  wait : Event
  go : Event
  interrupt : Event

pub go_on : ℤ → ℕ → Pc → Pc
unfolding is_open
go_on counter futex loading = if is_open counter then returned else reading
go_on counter futex reading = checking futex
go_on counter futex (checking seq) = if is_open counter then returned else waiting seq
go_on counter futex (waiting seq) = if futex == seq then asleep seq else loading
go_on counter futex p = p

pub move : Event → ℤ → ℕ → Pc → Pc
unfolding go_on
move go counter futex p = go_on counter futex p
move wait counter futex outside = loading
move interrupt counter futex (asleep seq) = waiting seq
move e counter futex p = p

-- `FUTEX_WAKE` of all.
pub wake : Pc → Pc
wake (asleep seq) = loading
wake p = p

-- A call of `count_down`, or of `arrive_and_wait`, up to its `fetch_sub`; the `fetch_add` and the wake-up
-- that follow; and the other moves.
pub data Step : Type 0 where
  counted : ℤ → Bool → ℕ → Step
  bumped : ℕ → Step
  woke : ℕ → Step
  moved : Event → ℕ → Step

pub count_found : Option Pc → ℕ → Bool → ℕ → Latch → Latch
unfolding counted_down
count_found (some outside) n waits i l = record l {
  counter = l.counter -ℤ pos n;
  counted = l.counted + n;
  threads = set i (counted_down l.counter n waits) l.threads;
}
count_found o n waits i l = l

pub bump_found : Option Pc → ℕ → Latch → Latch
bump_found (some (bumping waits)) i l = record l {
  futex = l.futex + 1;
  threads = set i (waking waits) l.threads;
}
bump_found o i l = l

pub wake_found : Option Pc → ℕ → List Pc → List Pc
unfolding wake after
wake_found (some (waking waits)) i threads = map wake (set i (after waits) threads)
wake_found o i threads = threads

pub move_found : Option Pc → Event → ℕ → Latch → Latch
unfolding move
move_found none e i l = l
move_found (some p) e i l = record l { threads = set i (move e l.counter l.futex p) l.threads }

-- A negative number is `std::invalid_argument`, and changes nothing.
pub step : Step → Latch → Latch
unfolding count_found bump_found wake_found move_found
step (counted (pos n) waits i) l = count_found (get_elem? l.threads i) n waits i l
step (counted (negsuc n) waits i) l = l
step (bumped i) l = bump_found (get_elem? l.threads i) i l
step (woke i) l = record l { threads = wake_found (get_elem? l.threads i) i l.threads }
step (moved e i) l = move_found (get_elem? l.threads i) e i l

pub run : List Step → Latch → Latch
unfolding step
run [] l = l
run (x ∷ xs) l = run xs (step x l)

-- `try_wait`
pub try_wait : Latch → Bool
unfolding is_open
try_wait l = is_open l.counter
