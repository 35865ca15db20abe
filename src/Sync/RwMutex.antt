-- ===== src/Sync/RwMutex.antt =====
-- `FutexRwMutex` of src/rw_mutex.cpp. The word `state_` is its three parts: the two bits and the number
-- of readers, which stays below 2^29. The two sequence numbers do not wrap around.
pub mod Exclusion
mod Examples
use pman.Common.{
  ℕ, zero, suc, ◌+◌, ◌-◌, Bool, true, false, not, ◌&&◌, ◌||◌, List, [], ◌∷◌, Option, none, some,
  if◌then◌else◌, ◌==◌, replicate, map,
}
use pman.Sync.Threads.{get_elem?, set}

pub record Word : Type 0 where
  pub writer_holding : Bool
  pub writer_waiting : Bool
  pub readers : ℕ

-- A word with no bit is its number of readers.
abbrev pub only_readers : ℕ → Word
only_readers n = record { writer_holding = false; writer_waiting = false; readers = n }

abbrev pub zero_word : Word
zero_word = only_readers 0

abbrev pub same_bit : Bool → Bool → Bool
same_bit a b = if a then b else not b

abbrev pub same_word : Word → Word → Bool
same_word v w =
    same_bit v.writer_holding w.writer_holding
    && same_bit v.writer_waiting w.writer_waiting
    && v.readers == w.readers

-- The atomic variables.
pub record Vars : Type 0 where
  pub state : Word
  pub writer_futex : ℕ
  pub reader_futex : ℕ

-- Where a thread stands: outside; in `lock_shared` before its load, its compare-exchange, the load of
-- the sequence number, the second load, `FUTEX_WAIT`, and asleep; reading; in `unlock_shared` before it
-- counts and wakes; the same for `lock` with the bit to set; writing; in `unlock` and in `downgrade` before each
-- count and wake-up.
pub data Pc : Type 0 where
  outside : Pc
  load_shared : Pc
  count_shared : ℕ → Pc
  see_shared : Pc
  check_shared : ℕ → Pc
  wait_shared : ℕ → Pc
  asleep_shared : Pc
  reading : Pc
  last_out : Pc
  wake_last : Pc
  load : Pc
  take_free : Pc
  announce : Pc
  see : Pc
  check : ℕ → Pc
  take_announced : Pc
  wait : ℕ → Pc
  asleep : Pc
  writing : Pc
  count_readers : Pc
  wake_readers : Pc
  count_writers : Pc
  wake_writer : Pc
  count_downgraded : Pc
  wake_downgraded : Pc

pub data Event : Type 0 where
  lock_shared : Event
  try_lock_shared : Event
  unlock_shared : Event
  lock : Event
  try_lock : Event
  unlock : Event
  try_upgrade : Event
  downgrade : Event
  go : Event

abbrev pub closed : Word → Bool
closed w = w.writer_holding || w.writer_waiting

abbrev pub held : Word
held = record { writer_holding = true; writer_waiting = false; readers = 0 }

abbrev pub announced : Word
announced = record { writer_holding = false; writer_waiting = true; readers = 0 }

abbrev pub one_reader : Word
one_reader = only_readers 1

-- A compare-exchange, to a word and a place, or else on to another.
pub exchange : Word → Word → Pc → Pc → Vars → Vars × Pc
exchange expected desired p otherwise v =
    if same_word v.state expected then (record v { state = desired }, p) else (v, otherwise)

-- The next instruction; the wake-ups are steps of the system.
pub go_on : Pc → Vars → Vars × Pc
unfolding exchange
go_on outside v = (v, outside)
go_on load_shared v = (v, if closed v.state then see_shared else count_shared v.state.readers)
go_on (count_shared n) v = exchange (only_readers n) (only_readers (n + 1)) reading load_shared v
go_on see_shared v = (v, check_shared v.reader_futex)
go_on (check_shared seq) v = (v, if closed v.state then wait_shared seq else load_shared)
go_on (wait_shared seq) v = (v, if v.reader_futex == seq then asleep_shared else load_shared)
go_on asleep_shared v = (v, asleep_shared)
go_on reading v = (v, reading)
go_on last_out v = (record v { writer_futex = v.writer_futex + 1 }, wake_last)
go_on wake_last v = (v, wake_last)
go_on load v = (
  v,
  if same_word v.state zero_word
      then take_free
      else (if v.state.writer_waiting then see else announce),
)
go_on take_free v = exchange zero_word held writing load v
go_on announce v = (record v { state = record v.state { writer_waiting = true } }, see)
go_on see v = (v, check v.writer_futex)
go_on (check seq) v =
    (v, if not (v.state.readers == 0) || v.state.writer_holding then wait seq else take_announced)
go_on take_announced v = exchange announced held writing load v
go_on (wait seq) v = (v, if v.writer_futex == seq then asleep else load)
go_on asleep v = (v, asleep)
go_on writing v = (v, writing)
go_on count_readers v = (record v { reader_futex = v.reader_futex + 1 }, wake_readers)
go_on wake_readers v = (v, wake_readers)
go_on count_writers v = (record v { writer_futex = v.writer_futex + 1 }, wake_writer)
go_on wake_writer v = (v, wake_writer)
go_on count_downgraded v = (record v { reader_futex = v.reader_futex + 1 }, wake_downgraded)
go_on wake_downgraded v = (v, wake_downgraded)

-- The calls, each of a thread that may make it. `try_lock_shared` is run whole: its loop ends as
-- soon as no one has changed the word in between.
pub call_from_outside : Event → Vars → Vars × Pc
unfolding exchange
call_from_outside lock_shared v = (v, load_shared)
call_from_outside try_lock_shared v =
    if closed v.state
    then (v, outside)
    else (record v { state = record v.state { readers = v.state.readers + 1 } }, reading)
call_from_outside lock v = (v, load)
call_from_outside try_lock v = exchange zero_word held writing outside v
call_from_outside e v = (v, outside)

pub call_reading : Event → Vars → Vars × Pc
unfolding exchange
call_reading unlock_shared v = (
  record v { state = record v.state { readers = v.state.readers - 1 } },
  if v.state.readers - 1 == 0 && v.state.writer_waiting then last_out else outside,
)
call_reading try_upgrade v = exchange one_reader held writing reading v
call_reading e v = (v, reading)

pub call_writing : Event → Vars → Vars × Pc
call_writing unlock v = (record v { state = zero_word }, count_readers)
call_writing downgrade v = (record v { state = one_reader }, count_downgraded)
call_writing e v = (v, writing)

pub move : Event → Pc → Vars → Vars × Pc
unfolding go_on call_from_outside call_reading call_writing
move go p v = go_on p v
move e outside v = call_from_outside e v
move e reading v = call_reading e v
move e writing v = call_writing e v
move e p v = (v, p)

pub record RwMutex : Type 0 where
  pub vars : Vars
  pub threads : List Pc

abbrev pub start : ℕ → RwMutex
start n = record {
  vars = record { state = zero_word; writer_futex = 0; reader_futex = 0 };
  threads = replicate n outside;
}

-- `FUTEX_WAKE`: of all readers, and of the writer that the kernel picks, if it sleeps.
pub wake_shared : Pc → Pc
wake_shared asleep_shared = load_shared
wake_shared p = p

pub sleeps : Option Pc → Bool
sleeps (some asleep) = true
sleeps o = false

pub wake_up : ℕ → List Pc → List Pc
unfolding sleeps
wake_up i threads = if sleeps (get_elem? threads i) then set i load threads else threads

-- A thread makes a move, or its wake-up is carried out.
pub data Step : Type 0 where
  moved : Event → ℕ → Step
  woke : ℕ → Step

pub move_found : Option Pc → Event → ℕ → RwMutex → RwMutex
unfolding move
move_found none e i m = m
move_found (some p) e i m =
    let r = move e p m.vars in record { vars = r.0; threads = set i r.1 m.threads }

pub wake_found : (List Pc → ℕ) → Option Pc → ℕ → List Pc → List Pc
unfolding wake_up wake_shared
wake_found pick (some wake_last) i threads = wake_up (pick threads) (set i outside threads)
wake_found pick (some wake_writer) i threads = wake_up (pick threads) (set i outside threads)
wake_found pick (some wake_readers) i threads = map wake_shared (set i count_writers threads)
wake_found pick (some wake_downgraded) i threads = map wake_shared (set i reading threads)
wake_found pick o i threads = threads

pub step : (List Pc → ℕ) → Step → RwMutex → RwMutex
unfolding move_found wake_found
step pick (moved e i) m = move_found (get_elem? m.threads i) e i m
step pick (woke i) m = record m { threads = wake_found pick (get_elem? m.threads i) i m.threads }

pub run : (List Pc → ℕ) → List Step → RwMutex → RwMutex
unfolding step
run pick [] m = m
run pick (x ∷ xs) m = run pick xs (step pick x m)
