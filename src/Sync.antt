-- ===== src/Sync.antt =====
-- The thread primitives of include/pman that spin or sleep on atomic words. Threads interleave at their
-- atomic instructions, which are taken to be sequentially consistent.
pub mod Threads
pub mod Mutex
pub mod RwMutex
pub mod Once
pub mod Latch
pub mod Semaphore
pub mod RwSpinLock
pub mod SeqLock
