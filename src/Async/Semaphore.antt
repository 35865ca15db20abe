-- ===== src/Async/Semaphore.antt =====
-- include/pman/async/semaphore.hpp: the counting semaphore that suspends coroutines, among the
-- coroutines of one event loop. `count_` and `capacity_` are of type size_t.
pub mod Permits
mod Examples
use pman.Common.{
  ℕ, suc, zero, ◌+◌, ◌-◌, ◌%◌, ◌^◌, Bool, true, false, List, [], ◌∷◌, ◌++◌, if◌then◌else◌, ltb,
}
use pman.Async.Loop.{Wake, nothing, posts, resumes, wake}

pub record Semaphore : Type 0 where
  pub count : ℕ
  pub capacity : ℕ
  pub waiters : List ℕ

abbrev pub size_mod : ℕ
size_mod = 2 ^ 64

-- `Semaphore(size_t count)`
abbrev pub new : ℕ → Semaphore
new n = record { count = n; capacity = n; waiters = [] }

-- The loop of compare-exchanges: it ends when one succeeds, or when it reads 0.
pub take_permit : Semaphore → Bool × Semaphore
take_permit s = if ltb 0 s.count then (true, record s { count = s.count - 1 }) else (false, s)

-- `AcquireAwaiter::await_ready` and `AcquireGuardAwaiter::await_ready`
pub await_ready : Semaphore → Bool × Semaphore
unfolding take_permit
await_ready s = take_permit s

-- `await_suspend` of both awaiters
pub await_suspend : ℕ → Semaphore → Semaphore
await_suspend h s = record s { waiters = s.waiters ++ h ∷ [] }

-- `tryAcquire`
pub try_acquire : Semaphore → Bool × Semaphore
unfolding take_permit
try_acquire s = take_permit s

-- The two branches of `release`; the Boolean says whether `EventLoop::current()` is there.
pub release_with : Bool → List ℕ → Semaphore → Semaphore × Wake ℕ
release_with loop [] s = (record s { count = (s.count + 1) % size_mod }, nothing)
release_with loop (h ∷ hs) s = (record s { waiters = hs }, wake loop h)

-- `release`
pub release : Bool → Semaphore → Semaphore × Wake ℕ
unfolding release_with wake
release loop s = release_with loop s.waiters s

-- `posted` is the loop's queue, `permits` counts the permits that coroutines own; `suspended` and
-- `resumed` are the history of the waiters.
pub record System : Type 0 where
  pub sem : Semaphore
  pub posted : List ℕ
  pub permits : ℕ
  pub suspended : List ℕ
  pub resumed : List ℕ

abbrev pub init : ℕ → System
init n = record { sem = new n; posted = []; permits = 0; suspended = []; resumed = [] }

-- `co_await sem.acquire()`, `sem.tryAcquire()`, a `release` by an owner, and a turn of the loop.
pub data Event : Type 0 where
  acquires : ℕ → Event
  tries : Event
  releases : Event
  turns : Event

acquire_after : ℕ → System → Bool × Semaphore → System
acquire_after i s (taken, m) =
    if taken
    then record s { sem = m; permits = s.permits + 1 }
    else record s { sem = await_suspend i m; suspended = s.suspended ++ i ∷ [] }

try_after : System → Bool × Semaphore → System
try_after s (taken, m) = record s {
  sem = m;
  permits = (if taken then s.permits + 1 else s.permits);
}

deliver : System → Semaphore × Wake ℕ → System
deliver s (m, nothing) = record s { sem = m }
deliver s (m, posts h) = record s { sem = m; posted = s.posted ++ h ∷ [] }
deliver s (m, resumes h) = record s {
  sem = m;
  permits = s.permits + 1;
  resumed = s.resumed ++ h ∷ [];
}

-- Nothing is released where no coroutine owns a permit.
release_after : ℕ → System → System
release_after zero s = s
release_after (suc p) s = deliver (record s { permits = p }) (release true s.sem)

turn : List ℕ → System → System
turn [] s = s
turn (h ∷ hs) s = record s { posted = hs; permits = s.permits + 1; resumed = s.resumed ++ h ∷ [] }

pub step : System → Event → System
unfolding acquire_after try_after release_after turn deliver await_ready try_acquire await_suspend
    release
step s (acquires i) = acquire_after i s (await_ready s.sem)
step s tries = try_after s (try_acquire s.sem)
step s releases = release_after s.permits s
step s turns = turn s.posted s

pub run : System → List Event → System
run s [] = s
run s (e ∷ es) = run (step s e) es
