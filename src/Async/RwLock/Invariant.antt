-- ===== src/Async/RwLock/Invariant.antt =====
-- The state word of include/pman/async/rwlock.hpp counts the guards, alive and on their way.
use pman.Common.{
  ℕ, zero, suc, ◌+◌, ◌<◌, ◌≡◌, refl, sym, ap, ◌∙◌, ◌⊎◌, inr, List, [], ◌∷◌, ◌++◌, map, length,
  append_assoc, append-nil, arith, true,
}
use pman.Common.Int.{ℤ, pos, negsuc, ◌+ℤ◌}
use pman.Async.Loop.{wake}
use pman.Async.RwLock.{
  RwLock, System, Turn, reader, writer, Event, reads, writes, tries_read, tries_write, drops_read,
  drops_write, turns, init, step, run, turn, deliver_all, drop_read_after, drop_write_after,
}

pub count_readers : List Turn → ℕ
count_readers [] = 0
count_readers (reader h ∷ ts) = suc (count_readers ts)
count_readers (writer h ∷ ts) = count_readers ts

pub count_writers : List Turn → ℕ
count_writers [] = 0
count_writers (reader h ∷ ts) = count_writers ts
count_writers (writer h ∷ ts) = suc (count_writers ts)

-- What the state says of the guards of both kinds and of the two queues.
abbrev pub Mode : ℤ → ℕ → ℕ → List ℕ → List ℕ → Type 0
Mode (pos n) readers writers rs ws =
    (readers ≡ n) × (writers ≡ 0) × (rs ≡ []) × ((0 < n) ⊎ (ws ≡ []))
Mode (negsuc n) readers writers rs ws = (n ≡ 0) × (readers ≡ 0) × (writers ≡ 1)

abbrev pub IsValid : System → Type 0
IsValid s =
    Mode s.lock.state (s.readers + count_readers s.posted) (s.writers + count_writers s.posted)
      s.lock.read_waiters s.lock.write_waiters

count_readers-snoc :
    (ts : List Turn) (h : ℕ) → count_readers (ts ++ reader h ∷ []) ≡ suc (count_readers ts)
unfolding count_readers
count_readers-snoc [] h = refl
count_readers-snoc (reader g ∷ ts) h = ap suc (count_readers-snoc ts h)
count_readers-snoc (writer g ∷ ts) h = count_readers-snoc ts h

count_writers-snoc :
    (ts : List Turn) (h : ℕ) → count_writers (ts ++ reader h ∷ []) ≡ count_writers ts
unfolding count_writers
count_writers-snoc [] h = refl
count_writers-snoc (reader g ∷ ts) h = count_writers-snoc ts h
count_writers-snoc (writer g ∷ ts) h = ap suc (count_writers-snoc ts h)

count_readers-snoc_writer :
    (ts : List Turn) (h : ℕ) → count_readers (ts ++ writer h ∷ []) ≡ count_readers ts
unfolding count_readers
count_readers-snoc_writer [] h = refl
count_readers-snoc_writer (reader g ∷ ts) h = ap suc (count_readers-snoc_writer ts h)
count_readers-snoc_writer (writer g ∷ ts) h = count_readers-snoc_writer ts h

count_writers-snoc_writer :
    (ts : List Turn) (h : ℕ) → count_writers (ts ++ writer h ∷ []) ≡ suc (count_writers ts)
unfolding count_writers
count_writers-snoc_writer [] h = refl
count_writers-snoc_writer (reader g ∷ ts) h = count_writers-snoc_writer ts h
count_writers-snoc_writer (writer g ∷ ts) h = ap suc (count_writers-snoc_writer ts h)

pub eq-nil_of_counts : (ts : List Turn) → count_readers ts ≡ 0 → count_writers ts ≡ 0 → ts ≡ []
unfolding count_readers count_writers
eq-nil_of_counts [] r w = refl
eq-nil_of_counts (reader h ∷ ts) r w = absurd (omega arith)
eq-nil_of_counts (writer h ∷ ts) r w = absurd (omega arith)

-- The woken readers are posted in the order in which they have waited.
pub posted-deliver_all :
    (hs : List ℕ) (s : System)
    → (deliver_all (map (λ h. wake true (reader h)) hs) s).posted ≡ s.posted ++ map reader hs
unfolding deliver_all wake
posted-deliver_all [] s = sym (append-nil s.posted)
posted-deliver_all (h ∷ hs) s =
    posted-deliver_all hs (record s { posted = s.posted ++ reader h ∷ [] })
    ∙ append_assoc s.posted (reader h ∷ []) (map reader hs)

-- Posting the woken readers adds them to the readers on their way, and changes nothing else.
pub record Woken (n : ℕ) (s t : System) : Type 0 where
  pub same_lock : t.lock ≡ s.lock
  pub same_readers : t.readers ≡ s.readers
  pub same_writers : t.writers ≡ s.writers
  pub more_readers : count_readers t.posted ≡ count_readers s.posted + n
  pub same_posted : count_writers t.posted ≡ count_writers s.posted

pub deliver_all-Woken :
    (hs : List ℕ) (s : System)
    → Woken (length hs) s (deliver_all (map (λ h. wake true (reader h)) hs) s)
unfolding deliver_all wake
deliver_all-Woken [] s = record {
  same_lock = refl;
  same_readers = refl;
  same_writers = refl;
  more_readers = omega arith;
  same_posted = refl;
}
deliver_all-Woken (h ∷ hs) s = ground (
  arith,
  count_readers-snoc s.posted h,
  count_writers-snoc s.posted h,
  deliver_all-Woken hs (record s { posted = s.posted ++ reader h ∷ [] }),
)

module _ (s : System) (v : IsValid s) where
  reads-IsValid : (i : ℕ) → IsValid (step s (reads i))
  unfolding step
  reads-IsValid i = ground arith

  writes-IsValid : (i : ℕ) → IsValid (step s (writes i))
  unfolding step
  writes-IsValid i = ground arith

  tries_read-IsValid : IsValid (step s tries_read)
  unfolding step
  tries_read-IsValid = ground arith

  tries_write-IsValid : IsValid (step s tries_write)
  unfolding step
  tries_write-IsValid = ground arith

  drop_read-IsValid :
      (r : ℕ) (ws : List ℕ)
      → s.readers ≡ r
      → s.lock.write_waiters ≡ ws
      → IsValid (drop_read_after r s)
  unfolding step
  drop_read-IsValid zero ws m e = v
  drop_read-IsValid (suc r) [] m e = ground arith
  drop_read-IsValid (suc r) (w ∷ ws) m e =
      ground (arith, count_readers-snoc_writer s.posted w, count_writers-snoc_writer s.posted w)

  drop_write-IsValid :
      (n : ℕ) (ws : List ℕ)
      → s.writers ≡ n
      → s.lock.write_waiters ≡ ws
      → IsValid (drop_write_after n s)
  unfolding step
  drop_write-IsValid zero ws m e = v
  drop_write-IsValid (suc n) [] m e =
      let lock : RwLock = record {
        state = pos 0 +ℤ pos (length s.lock.read_waiters);
        read_waiters = [];
        write_waiters = [];
      } in
      let woken = deliver_all-Woken s.lock.read_waiters (record s { lock = lock; writers = n }) in
      rw e (
        rw
          (
            woken.same_lock, woken.same_readers, woken.same_writers, woken.more_readers,
            woken.same_posted,
          )
          (ground arith))
  drop_write-IsValid (suc n) (w ∷ ws) m e =
      ground (arith, count_readers-snoc_writer s.posted w, count_writers-snoc_writer s.posted w)

  turn-IsValid : (ts : List Turn) → s.posted ≡ ts → IsValid (turn ts s)
  unfolding step count_readers count_writers
  turn-IsValid [] e = v
  turn-IsValid (reader h ∷ ts) e = ground arith
  turn-IsValid (writer h ∷ ts) e = ground arith

pub step-IsValid : (s : System) (e : Event) → IsValid s → IsValid (step s e)
unfolding step
step-IsValid s (reads i) v = reads-IsValid s v i
step-IsValid s (writes i) v = writes-IsValid s v i
step-IsValid s tries_read v = tries_read-IsValid s v
step-IsValid s tries_write v = tries_write-IsValid s v
step-IsValid s drops_read v = drop_read-IsValid s v s.readers s.lock.write_waiters refl refl
step-IsValid s drops_write v = drop_write-IsValid s v s.writers s.lock.write_waiters refl refl
step-IsValid s turns v = turn-IsValid s v s.posted refl

run-IsValid : (s : System) (es : List Event) → IsValid s → IsValid (run s es)
unfolding run
run-IsValid s [] v = v
run-IsValid s (e ∷ es) v = run-IsValid (step s e) es (step-IsValid s e v)

pub reached-IsValid : (es : List Event) → IsValid (run init es)
unfolding count_readers count_writers
reached-IsValid es = run-IsValid init es (refl, refl, refl, inr refl)
