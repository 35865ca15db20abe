-- ===== src/Async/RwLock/Exclusion.antt =====
-- What the lock of include/pman/async/rwlock.hpp promises the coroutines that share it. A guard
-- counts from the moment its coroutine is posted.
use pman.Common.{
  ℕ, zero, suc, ◌+◌, ◌≤◌, ◌<◌, ◌≡◌, refl, ◌⊎◌, List, [], ◌∷◌, map, length, ltb, arith,
}
use pman.Common.Int.{pos, negsuc, ◌+ℤ◌}
use pman.Async.RwLock.{
  RwLock, System, reader, writer, Event, drops_write, has_readers, has_writer, init, step, run,
  drop_write_after,
}
use pman.Async.RwLock.Invariant.{
  IsValid, count_readers, count_writers, reached-IsValid, eq-nil_of_counts, posted-deliver_all,
  deliver_all-Woken,
}

-- The guards of a kind, those on their way to a posted coroutine included.
abbrev pub all_readers : System → ℕ
all_readers s = s.readers + count_readers s.posted

abbrev pub all_writers : System → ℕ
all_writers s = s.writers + count_writers s.posted

module _ (s : System) (v : IsValid s) where
  exclusive : ((all_readers s ≡ 0) ⊎ (all_writers s ≡ 0)) × (all_writers s ≤ 1)
  exclusive = ground arith

  queries :
      (has_readers s.lock ≡ ltb 0 (all_readers s)) × (has_writer s.lock ≡ ltb 0 (all_writers s))
  unfolding has_readers has_writer
  queries = ground arith

  attended :
      ((s.lock.read_waiters ≡ []) ⊎ (all_writers s ≡ 1))
      × ((s.lock.write_waiters ≡ []) ⊎ (0 < all_readers s + all_writers s))
  attended = ground arith

-- After any history there are read guards or a write guard but never both, and at most one write
-- guard.
pub rw_lock-exclusive :
    (es : List Event)
    → let s = run init es in ((all_readers s ≡ 0) ⊎ (all_writers s ≡ 0)) × (all_writers s ≤ 1)
rw_lock-exclusive es = exclusive (run init es) (reached-IsValid es)

-- After any history `hasReaders` says whether there is a read guard, and `hasWriter` whether there
-- is a write guard.
pub queries-guards :
    (es : List Event)
    → let s = run init es in
      (has_readers s.lock ≡ ltb 0 (all_readers s)) × (has_writer s.lock ≡ ltb 0 (all_writers s))
queries-guards es = queries (run init es) (reached-IsValid es)

-- After any history readers wait only while there is a write guard, and writers wait only while
-- there is a guard of either kind: no wake-up is lost.
pub rw_lock-waiters :
    (es : List Event)
    → let s = run init es in
      ((s.lock.read_waiters ≡ []) ⊎ (all_writers s ≡ 1))
      × ((s.lock.write_waiters ≡ []) ⊎ (0 < all_readers s + all_writers s))
rw_lock-waiters es = attended (run init es) (reached-IsValid es)

module _ (s : System) (v : IsValid s) where
  to_writer :
      (n w : ℕ) (ws : List ℕ)
      → s.writers ≡ n
      → 0 < n
      → s.lock.write_waiters ≡ w ∷ ws
      → let t = drop_write_after n s in
        (t.lock.state ≡ negsuc 0)
        × (t.lock.write_waiters ≡ ws)
        × (t.lock.read_waiters ≡ s.lock.read_waiters)
        × (t.posted ≡ writer w ∷ [])
        × (t.writers ≡ 0)
  unfolding step
  to_writer zero w ws held h e = absurd (omega arith)
  to_writer (suc n) w ws held h e = ground (arith, eq-nil_of_counts s.posted)

  to_readers :
      (n : ℕ)
      → s.writers ≡ n
      → 0 < n
      → s.lock.write_waiters ≡ []
      → let t = drop_write_after n s in
        (t.lock.state ≡ pos (length s.lock.read_waiters))
        × (t.lock.read_waiters ≡ [])
        × (t.posted ≡ map reader s.lock.read_waiters)
        × (t.writers ≡ 0)
  unfolding step
  to_readers zero held h e = absurd (omega arith)
  to_readers (suc n) held h e =
      let lock : RwLock = record {
        state = pos 0 +ℤ pos (length s.lock.read_waiters);
        read_waiters = [];
        write_waiters = [];
      } in
      let start : System = record s { lock = lock; writers = n } in
      let woken = deliver_all-Woken s.lock.read_waiters start in
      let posted = posted-deliver_all s.lock.read_waiters start in
      let empty : s.posted ≡ [] = ground (arith, eq-nil_of_counts s.posted) in
      rw e (rw (woken.same_lock, woken.same_writers, posted, empty) (ground arith))

-- When, after any history, the write guard is destroyed while writers wait, the lock passes to the
-- writer that has waited longest, which is posted; the readers that wait go on waiting.
pub drop_write-to_writer :
    (es : List Event) (w : ℕ) (ws : List ℕ)
    → 0 < (run init es).writers
    → (run init es).lock.write_waiters ≡ w ∷ ws
    → let t = step (run init es) drops_write in
      (t.lock.state ≡ negsuc 0)
      × (t.lock.write_waiters ≡ ws)
      × (t.lock.read_waiters ≡ (run init es).lock.read_waiters)
      × (t.posted ≡ writer w ∷ [])
      × (t.writers ≡ 0)
unfolding step
drop_write-to_writer es w ws h e =
    to_writer (run init es) (reached-IsValid es) (run init es).writers w ws refl h e

-- When, after any history, the write guard is destroyed while no writer waits, all waiting readers
-- are posted, in the order in which they have waited, and the state counts each of them.
pub drop_write-to_readers :
    (es : List Event)
    → 0 < (run init es).writers
    → (run init es).lock.write_waiters ≡ []
    → let t = step (run init es) drops_write in
      (t.lock.state ≡ pos (length (run init es).lock.read_waiters))
      × (t.lock.read_waiters ≡ [])
      × (t.posted ≡ map reader (run init es).lock.read_waiters)
      × (t.writers ≡ 0)
unfolding step
drop_write-to_readers es h e =
    to_readers (run init es) (reached-IsValid es) (run init es).writers refl h e
