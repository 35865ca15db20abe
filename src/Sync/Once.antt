-- ===== src/Sync/Once.antt =====
-- `FutexOnceFlag` of include/pman/once.hpp and src/once.cpp.
pub mod Calls
mod Examples
use pman.Common.{
  ℕ, ◌+◌, List, [], ◌∷◌, Option, none, some, if◌then◌else◌, ◌==◌, replicate, map, Bool,
}
use pman.Sync.Threads.{get_elem?, set}

-- `State`
abbrev pub not_started : ℕ
not_started = 0

abbrev pub running : ℕ
running = 1

abbrev pub finished : ℕ
finished = 2

-- Where a thread stands: outside; it runs the function; the function has returned, and it is before the
-- store, or before the wake-up; the function has thrown, and it is before the store; in
-- `wait_for_completion` before the load, before `FUTEX_WAIT`, and asleep.
pub data Pc : Type 0 where
  outside : Pc
  calling : Pc
  marking : Pc
  waking : Pc
  failing : Pc
  loading : Pc
  waiting : Pc
  asleep : Pc

-- The word, with the number of calls of the function that have returned.
pub record Flag : Type 0 where
  pub state : ℕ
  pub returned : ℕ
  pub threads : List Pc

abbrev pub start : ℕ → Flag
start n = record { state = not_started; returned = 0; threads = replicate n outside }

-- `call_once` is called, the function returns or throws, a thread makes its next step.
pub data Event : Type 0 where
  call_once : Event
  returns : Event
  throws : Event
  go : Event

-- The new word, the calls that have returned in this step, and the new place.
pub go_on : ℕ → Pc → ℕ × ℕ × Pc
go_on state outside = (state, 0, outside)
go_on state calling = (state, 0, calling)
go_on state marking = (finished, 0, waking)
go_on state waking = (state, 0, waking)
go_on state failing = (not_started, 0, outside)
go_on state loading = (
  state,
  0,
  if state == finished then outside else (if state == not_started then outside else waiting),
)
go_on state waiting = (state, 0, if state == running then asleep else loading)
go_on state asleep = (state, 0, asleep)

pub call : ℕ → ℕ × ℕ × Pc
call state =
    if state == not_started
    then (running, 0, calling)
    else (state, 0, if state == finished then outside else loading)

pub move : Event → ℕ → Pc → ℕ × ℕ × Pc
unfolding go_on call
move go state p = go_on state p
move call_once state outside = call state
move returns state calling = (state, 1, marking)
move throws state calling = (state, 0, failing)
move e state p = (state, 0, p)

-- `FUTEX_WAKE` of all.
pub wake : Pc → Pc
wake asleep = loading
wake p = p

pub data Step : Type 0 where
  moved : Event → ℕ → Step
  woke : ℕ → Step

pub move_found : Option Pc → Event → ℕ → Flag → Flag
unfolding move
move_found none e i f = f
move_found (some p) e i f =
    let r = move e f.state p in
    record { state = r.0; returned = f.returned + r.1; threads = set i r.2 f.threads }

pub wake_found : Option Pc → ℕ → List Pc → List Pc
unfolding wake
wake_found (some waking) i threads = map wake (set i outside threads)
wake_found o i threads = threads

pub step : Step → Flag → Flag
unfolding move_found wake_found
step (moved e i) f = move_found (get_elem? f.threads i) e i f
step (woke i) f = record f { threads = wake_found (get_elem? f.threads i) i f.threads }

pub run : List Step → Flag → Flag
unfolding step
run [] f = f
run (x ∷ xs) f = run xs (step x f)

-- `has_run`
pub has_run : Flag → Bool
has_run f = f.state == finished
