-- ===== src/Async/Mutex.antt =====
-- include/pman/async/mutex.hpp: the mutex that suspends coroutines, and the event loop's queue
-- of posted handles around it. A coroutine is named by the number of its handle.
pub mod Invariant
pub mod Exclusion
mod Examples
use pman.Common.{ℕ, Bool, true, false, List, [], ◌∷◌, ◌++◌, if◌then◌else◌}
use pman.Async.Loop.{Wake, nothing, posts, resumes, wake, remove_guard}

pub record Mutex : Type 0 where
  pub locked : Bool
  pub waiters : List ℕ

-- `Mutex()`
abbrev pub new : Mutex
new = record { locked = false; waiters = [] }

-- The compare-exchange of `locked_` from false to true.
pub take_lock : Mutex → Bool × Mutex
take_lock m = if m.locked then (false, m) else (true, record m { locked = true })

-- `LockAwaiter::await_ready`
pub await_ready : Mutex → Bool × Mutex
unfolding take_lock
await_ready m = take_lock m

-- `LockAwaiter::await_suspend`
pub await_suspend : ℕ → Mutex → Mutex
await_suspend h m = record m { waiters = m.waiters ++ h ∷ [] }

-- `tryLock`: `true` stands for a guard, `false` for `nullopt`.
pub try_lock : Mutex → Bool × Mutex
unfolding take_lock
try_lock m = take_lock m

-- The two branches of `unlock`; the Boolean says whether `EventLoop::current()` is there.
pub unlock_with : Bool → List ℕ → Mutex → Mutex × Wake ℕ
unlock_with loop [] m = (record m { locked = false }, nothing)
unlock_with loop (h ∷ hs) m = (record m { waiters = hs }, wake loop h)

-- `unlock`
pub unlock : Bool → Mutex → Mutex × Wake ℕ
unfolding unlock_with wake
unlock loop m = unlock_with loop m.waiters m

-- The mutex among the coroutines of one event loop. `posted` is the loop's queue, `guards` lists
-- the coroutines that own a `LockGuard`; `suspended` and `resumed` are the history of both ends.
pub record System : Type 0 where
  pub mutex : Mutex
  pub posted : List ℕ
  pub guards : List ℕ
  pub suspended : List ℕ
  pub resumed : List ℕ

abbrev pub init : System
init = record { mutex = new; posted = []; guards = []; suspended = []; resumed = [] }

-- `co_await mutex.lock()`, `mutex.tryLock()`, the end of a guard's life, and one turn of the loop.
pub data Event : Type 0 where
  locks : ℕ → Event
  tries : ℕ → Event
  drops : ℕ → Event
  turns : Event

-- `co_await` calls `await_ready`, and `await_suspend` where that fails.
lock_after : ℕ → System → Bool × Mutex → System
lock_after i s (taken, m) =
    if taken
    then record s { mutex = m; guards = i ∷ s.guards }
    else record s { mutex = await_suspend i m; suspended = s.suspended ++ i ∷ [] }

try_after : ℕ → System → Bool × Mutex → System
try_after i s (taken, m) = record s {
  mutex = m;
  guards = (if taken then i ∷ s.guards else s.guards);
}

-- A handle that is posted waits for its turn; one that is resumed runs `await_resume` at once.
deliver : System → Mutex × Wake ℕ → System
deliver s (m, nothing) = record s { mutex = m }
deliver s (m, posts h) = record s { mutex = m; posted = s.posted ++ h ∷ [] }
deliver s (m, resumes h) = record s {
  mutex = m;
  guards = h ∷ s.guards;
  resumed = s.resumed ++ h ∷ [];
}

-- Within an event loop `EventLoop::current()` is that loop.
drop_after : System → Bool × List ℕ → System
drop_after s (owned, gs) =
    if owned then deliver (record s { guards = gs }) (unlock true s.mutex) else s

-- The loop resumes the oldest posted handle, and `await_resume` makes its guard.
turn : List ℕ → System → System
turn [] s = s
turn (h ∷ hs) s = record s { posted = hs; guards = h ∷ s.guards; resumed = s.resumed ++ h ∷ [] }

pub step : System → Event → System
unfolding lock_after try_after drop_after turn deliver await_ready try_lock await_suspend
    remove_guard unlock
step s (locks i) = lock_after i s (await_ready s.mutex)
step s (tries i) = try_after i s (try_lock s.mutex)
step s (drops i) = drop_after s (remove_guard i s.guards)
step s turns = turn s.posted s

pub run : System → List Event → System
run s [] = s
run s (e ∷ es) = run (step s e) es
