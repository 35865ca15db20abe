-- ===== src/Async.antt =====
-- The coroutine primitives of include/pman/async.
pub mod Loop
pub mod Mutex
pub mod Semaphore
pub mod RwLock
pub mod Channel
pub mod Stream
pub mod Actor
pub mod Combinators
