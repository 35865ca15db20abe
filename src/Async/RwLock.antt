-- ===== src/Async/RwLock.antt =====
-- include/pman/async/rwlock.hpp: the reader-writer lock that suspends coroutines, among the
-- coroutines of one event loop. `state_` counts the readers, or is -1 while a writer has the lock.
pub mod Invariant
pub mod Exclusion
mod Examples
use pman.Common.{
  ℕ, zero, suc, ◌+◌, Bool, true, false, List, [], ◌∷◌, ◌++◌, map, if◌then◌else◌, ◌&&◌, not, length,
}
use pman.Common.Int.{ℤ, pos, negsuc, ◌+ℤ◌, ◌-ℤ◌, ltb_ℤ, eqb_ℤ}
use pman.Async.Loop.{Wake, nothing, posts, resumes, wake}

pub record RwLock : Type 0 where
  pub state : ℤ
  pub read_waiters : List ℕ
  pub write_waiters : List ℕ

-- `RwLock()`
abbrev pub new : RwLock
new = record { state = pos 0; read_waiters = []; write_waiters = [] }

-- A handle that is woken, with the awaiter that it resumes in.
pub data Turn : Type 0 where
  reader : ℕ → Turn
  writer : ℕ → Turn

-- The loop of compare-exchanges from `expected >= 0` to `expected + 1`.
pub take_read : RwLock → Bool × RwLock
take_read l =
    if ltb_ℤ l.state (pos 0) then (false, l) else (true, record l { state = l.state +ℤ pos 1 })

-- The compare-exchange from 0 to -1.
pub take_write : RwLock → Bool × RwLock
take_write l = if eqb_ℤ l.state (pos 0) then (true, record l { state = negsuc 0 }) else (false, l)

-- `ReadLockAwaiter` and `WriteLockAwaiter`
pub await_ready_read : RwLock → Bool × RwLock
unfolding take_read
await_ready_read l = take_read l

pub await_ready_write : RwLock → Bool × RwLock
unfolding take_write
await_ready_write l = take_write l

pub await_suspend_read : ℕ → RwLock → RwLock
await_suspend_read h l = record l { read_waiters = l.read_waiters ++ h ∷ [] }

pub await_suspend_write : ℕ → RwLock → RwLock
await_suspend_write h l = record l { write_waiters = l.write_waiters ++ h ∷ [] }

-- `tryReadLock` and `tryWriteLock`
pub try_read_lock : RwLock → Bool × RwLock
unfolding take_read
try_read_lock l = take_read l

pub try_write_lock : RwLock → Bool × RwLock
unfolding take_write
try_write_lock l = take_write l

-- The compare-exchange for the oldest waiting writer, and its wake-up where that succeeds.
pub wake_writer : Bool → List ℕ → RwLock → RwLock × List (Wake Turn)
wake_writer loop [] l = (l, [])
wake_writer loop (h ∷ hs) l =
    if eqb_ℤ l.state (pos 0)
    then (record l { state = negsuc 0; write_waiters = hs }, wake loop (writer h) ∷ [])
    else (l, [])

-- `unlockRead`
pub unlock_read : Bool → RwLock → RwLock × List (Wake Turn)
unfolding wake_writer wake ◌-ℤ◌
unlock_read loop l =
    let l' = record l { state = l.state -ℤ pos 1 } in
    if eqb_ℤ l.state (pos 1) then wake_writer loop l.write_waiters l' else (l', [])

-- All waiting readers are woken: the state counts each of them at once.
pub wake_readers : Bool → List ℕ → RwLock → RwLock × List (Wake Turn)
wake_readers loop hs l = (
  record l { state = l.state +ℤ pos (length hs); read_waiters = [] },
  map (λ h. wake loop (reader h)) hs,
)

-- The branches of `unlockWrite` by the waiting writers.
pub unlock_write_with : Bool → List ℕ → RwLock → RwLock × List (Wake Turn)
unlock_write_with loop [] l = wake_readers loop l.read_waiters l
unlock_write_with loop (h ∷ hs) l = wake_writer loop (h ∷ hs) l

-- `unlockWrite`
pub unlock_write : Bool → RwLock → RwLock × List (Wake Turn)
unfolding unlock_write_with wake_writer wake_readers wake ◌+ℤ◌
unlock_write loop l = unlock_write_with loop l.write_waiters (record l { state = pos 0 })

-- `hasReaders` and `hasWriter`
pub has_readers : RwLock → Bool
has_readers l = ltb_ℤ (pos 0) l.state

pub has_writer : RwLock → Bool
has_writer l = ltb_ℤ l.state (pos 0)

-- `posted` is the loop's queue; `readers` and `writers` count the guards that are alive.
pub record System : Type 0 where
  pub lock : RwLock
  pub posted : List Turn
  pub readers : ℕ
  pub writers : ℕ

abbrev pub init : System
init = record { lock = new; posted = []; readers = 0; writers = 0 }

-- The two `co_await`s, the two tries, the end of a guard of either kind, a turn of the loop.
pub data Event : Type 0 where
  reads : ℕ → Event
  writes : ℕ → Event
  tries_read : Event
  tries_write : Event
  drops_read : Event
  drops_write : Event
  turns : Event

read_after : ℕ → System → Bool × RwLock → System
read_after i s (taken, l) =
    if taken
    then record s { lock = l; readers = s.readers + 1 }
    else record s { lock = await_suspend_read i l }

write_after : ℕ → System → Bool × RwLock → System
write_after i s (taken, l) =
    if taken
    then record s { lock = l; writers = s.writers + 1 }
    else record s { lock = await_suspend_write i l }

try_read_after : System → Bool × RwLock → System
try_read_after s (taken, l) = record s {
  lock = l;
  readers = (if taken then s.readers + 1 else s.readers);
}

try_write_after : System → Bool × RwLock → System
try_write_after s (taken, l) = record s {
  lock = l;
  writers = (if taken then s.writers + 1 else s.writers);
}

-- `await_resume` makes the guard of a resumed coroutine.
resume : Turn → System → System
resume (reader h) s = record s { readers = s.readers + 1 }
resume (writer h) s = record s { writers = s.writers + 1 }

pub deliver_all : List (Wake Turn) → System → System
deliver_all [] s = s
deliver_all (nothing ∷ ws) s = deliver_all ws s
deliver_all (posts t ∷ ws) s = deliver_all ws (record s { posted = s.posted ++ t ∷ [] })
deliver_all (resumes t ∷ ws) s = deliver_all ws (resume t s)

deliver : System → RwLock × List (Wake Turn) → System
deliver s (l, ws) = deliver_all ws (record s { lock = l })

-- A guard is destroyed only where one is alive.
drop_read_after : ℕ → System → System
drop_read_after zero s = s
drop_read_after (suc r) s = deliver (record s { readers = r }) (unlock_read true s.lock)

drop_write_after : ℕ → System → System
drop_write_after zero s = s
drop_write_after (suc w) s = deliver (record s { writers = w }) (unlock_write true s.lock)

turn : List Turn → System → System
turn [] s = s
turn (t ∷ ts) s = resume t (record s { posted = ts })

pub step : System → Event → System
unfolding read_after write_after try_read_after try_write_after drop_read_after drop_write_after
    turn resume deliver deliver_all await_ready_read await_ready_write await_suspend_read
    await_suspend_write try_read_lock try_write_lock unlock_read unlock_write ◌+ℤ◌
step s (reads i) = read_after i s (await_ready_read s.lock)
step s (writes i) = write_after i s (await_ready_write s.lock)
step s tries_read = try_read_after s (try_read_lock s.lock)
step s tries_write = try_write_after s (try_write_lock s.lock)
step s drops_read = drop_read_after s.readers s
step s drops_write = drop_write_after s.writers s
step s turns = turn s.posted s

pub run : System → List Event → System
run s [] = s
run s (e ∷ es) = run (step s e) es
