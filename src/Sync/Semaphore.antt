-- ===== src/Sync/Semaphore.antt =====
-- `FutexSemaphore` of include/pman/semaphore.hpp and src/semaphore.cpp.
pub mod Permits
mod Examples
use pman.Common.{
  ℕ, suc, zero, ◌+◌, ◌-◌, ◌^◌, min, ltb, Bool, true, false, List, [], ◌∷◌, Option, none, some,
  if◌then◌else◌, ◌==◌, not, replicate,
}
use pman.Common.Int.{ℤ, pos, negsuc, ltb_ℤ, eqb_ℤ, ◌-ℤ◌, ◌+ℤ◌}
use pman.Sync.Threads.{get_elem?, set}

-- `try_acquire`, and `try_acquire_impl` without a timeout, with one of zero and with another.
pub data Call : Type 0 where
  trying : Call
  forever : Call
  no_time : Call
  some_time : Call

-- Where a thread stands: outside; before the load of the count, and before the compare-exchange; before
-- `waiters_` is increased, before the load that follows, and before `waiters_` is decreased to try again;
-- before `FUTEX_WAIT` and asleep; before `waiters_` is decreased after it, with whether the time ran out; in
-- `release`, before the load of `waiters_`, and before the wake-up.
pub data Pc : Type 0 where
  outside : Pc
  loading : Call → Pc
  swapping : Call → ℤ → Pc
  joining : Call → Pc
  rechecking : Call → Pc
  retrying : Call → Pc
  waiting : Call → ℤ → Pc
  asleep : Call → Pc
  leaving : Call → Bool → Pc
  notifying : ℕ → Pc
  waking : ℕ → Pc

-- The two words, with what was acquired and released and how often `release` threw `logic_error`.
pub record Words : Type 0 where
  pub count : ℤ
  pub waiters : ℕ
  pub acquired : ℕ
  pub released : ℕ
  pub underflows : ℕ

pub record Semaphore : Type 0 where
  pub words : Words
  pub threads : List Pc

-- The constructor, for a count that is not negative.
abbrev pub new_semaphore : ℕ → ℕ → Semaphore
new_semaphore initial n = record {
  words = record { count = pos initial; waiters = 0; acquired = 0; released = 0; underflows = 0 };
  threads = replicate n outside;
}

-- A call begins, or `release` does; a thread makes its next step, or its compare-exchange fails though the
-- count has not changed, or its sleep ends by a signal, or by its timeout.
pub data Event : Type 0 where
  call : Call → Event
  release : ℤ → Event
  go : Event
  fail : Event
  interrupt : Event
  time_out : Event

-- After the loop found the count used up.
pub used_up : Call → Pc
used_up trying = outside
used_up forever = joining forever
used_up no_time = outside
used_up some_time = joining some_time

-- The condition of the loop.
pub looked : Call → ℤ → Pc
unfolding used_up
looked k current = if ltb_ℤ (pos 0) current then swapping k current else used_up k

-- The `int` that a sum of two of them wraps to.
abbrev int_max : ℕ
int_max = 2 ^ 31 - 1

pub to_int : ℤ → ℤ
to_int z = if ltb_ℤ (pos int_max) z then z -ℤ pos (2 ^ 32) else z

pub acquire_one : Words → Words
acquire_one w = record w { count = w.count -ℤ pos 1; acquired = w.acquired + 1 }

pub go_on : Words → Pc → Words × Pc
unfolding looked acquire_one
go_on w (loading k) = (w, looked k w.count)
go_on w (swapping k current) =
    if eqb_ℤ w.count current then (acquire_one w, outside) else (w, looked k w.count)
go_on w (joining k) = (record w { waiters = w.waiters + 1 }, rechecking k)
go_on w (rechecking k) = (w, if ltb_ℤ (pos 0) w.count then retrying k else waiting k w.count)
go_on w (retrying k) = (record w { waiters = w.waiters - 1 }, loading k)
go_on w (waiting k current) = (w, if eqb_ℤ w.count current then asleep k else leaving k false)
go_on w (leaving k timed_out) =
    (record w { waiters = w.waiters - 1 }, if timed_out then outside else loading k)
go_on w (notifying n) = (w, if ltb 0 w.waiters then waking (min n w.waiters) else outside)
go_on w p = (w, p)

-- The `fetch_add` of `release`, for an `int`; a count that is not positive is `std::invalid_argument`.
pub released_by : ℕ → Words → Words × Pc
unfolding to_int
released_by n w =
    let w' : Words = record w { count = to_int (w.count +ℤ pos n); released = w.released + n } in
    if ltb_ℤ w.count (pos 0)
    then (record w' { underflows = w.underflows + 1 }, outside)
    else (w', notifying n)

pub move : Event → Words → Pc → Words × Pc
unfolding go_on looked released_by
move go w p = go_on w p
move (call k) w outside = (w, loading k)
move (release (pos (suc n))) w outside = released_by (suc n) w
move fail w (swapping k current) = (w, looked k w.count)
move interrupt w (asleep k) = (w, leaving k false)
move time_out w (asleep some_time) = (w, leaving some_time true)
move e w p = (w, p)

-- `FUTEX_WAKE` of n of the threads; `chosen` are those that the kernel wakes.
pub wake_found : Option Pc → ℕ → List Pc → List Pc
wake_found (some (asleep k)) i threads = set i (leaving k false) threads
wake_found o i threads = threads

pub wake : ℕ → List ℕ → List Pc → List Pc
unfolding wake_found
wake zero chosen threads = threads
wake (suc n) [] threads = threads
wake (suc n) (i ∷ chosen) threads = wake n chosen (wake_found (get_elem? threads i) i threads)

pub data Step : Type 0 where
  moved : Event → ℕ → Step
  woke : ℕ → List ℕ → Step

pub move_found : Option Pc → Event → ℕ → Semaphore → Semaphore
unfolding move
move_found none e i s = s
move_found (some p) e i s =
    let r = move e s.words p in record { words = r.0; threads = set i r.1 s.threads }

pub woke_found : Option Pc → ℕ → List ℕ → List Pc → List Pc
unfolding wake
woke_found (some (waking n)) i chosen threads = wake n chosen (set i outside threads)
woke_found o i chosen threads = threads

pub step : Step → Semaphore → Semaphore
unfolding move_found woke_found
step (moved e i) s = move_found (get_elem? s.threads i) e i s
step (woke i chosen) s = record s {
  threads = woke_found (get_elem? s.threads i) i chosen s.threads;
}

pub run : List Step → Semaphore → Semaphore
unfolding step
run [] s = s
run (x ∷ xs) s = run xs (step x s)
