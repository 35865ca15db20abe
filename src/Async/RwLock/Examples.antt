-- ===== src/Async/RwLock/Examples.antt =====
-- The lock of include/pman/async/rwlock.hpp on short histories.
use pman.Common.{◌≤◌, ◌≡◌, refl, ◌⊎◌, List, [], ◌∷◌, ◌++◌}
use pman.Async.RwLock.{
  reader, writer, Event, reads, writes, tries_read, tries_write, drops_read, drops_write, turns,
  init, step, run,
}
use pman.Async.RwLock.Exclusion.{all_readers, all_writers, rw_lock-exclusive}

-- A writer has the lock; readers 2 and 3 and writer 4 wait; both tries fail.
abbrev contended : List Event
contended = writes 1 ∷ reads 2 ∷ reads 3 ∷ writes 4 ∷ tries_read ∷ tries_write ∷ []

-- The same without writer 4.
abbrev readers_wait : List Event
readers_wait = writes 1 ∷ reads 2 ∷ reads 3 ∷ []

writer_first :
    (run init (contended ++ drops_write ∷ turns ∷ drops_write ∷ [])).posted
    ≡ reader 2 ∷ reader 3 ∷ []
unfolding run step
writer_first = refl

last_reader :
    (run init (reads 1 ∷ reads 2 ∷ writes 3 ∷ drops_read ∷ drops_read ∷ [])).posted ≡ writer 3 ∷ []
unfolding run step
last_reader = refl

-- A reader enters at once while a writer waits for the readers to leave.
reader_overtakes : (run init (reads 1 ∷ writes 2 ∷ reads 3 ∷ [])).readers ≡ 2
unfolding run step
reader_overtakes = refl

rw_lock-exclusive_example :
    let s = run init contended in ((all_readers s ≡ 0) ⊎ (all_writers s ≡ 0)) × (all_writers s ≤ 1)
rw_lock-exclusive_example = rw_lock-exclusive contended
