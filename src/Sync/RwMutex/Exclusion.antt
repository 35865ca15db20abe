-- ===== src/Sync/RwMutex/Exclusion.antt =====
-- Readers and writers of `FutexRwMutex` of src/rw_mutex.cpp exclude each other.
use pman.Common.{
  ℕ, ◌+◌, ◌≤◌, ◌≡◌, ◌⊎◌, refl, ◌∙◌, true, false, not, ◌||◌, List, [], ◌∷◌, Option, none, some,
  if◌then◌else◌, ◌==◌, map, sum_by, sum_by-replicate, Bool-cases, inl, inr, arith,
}
use pman.Sync.Threads.{get_elem?, set, sum_by-set, sum_by-le}
use pman.Sync.RwMutex

abbrev pub reads : RwMutex.Pc → ℕ
reads RwMutex.reading = 1
reads RwMutex.count_downgraded = 1
reads RwMutex.wake_downgraded = 1
reads p = 0

abbrev pub writes : RwMutex.Pc → ℕ
writes RwMutex.writing = 1
writes p = 0

abbrev holding : RwMutex.Vars → ℕ
holding v = if v.state.writer_holding then 1 else 0

-- A move of a thread from `p` keeps the word in step with what the threads hold.
abbrev Kept : RwMutex.Pc → RwMutex.Vars → RwMutex.Vars × RwMutex.Pc → Type 0
Kept p v r =
    (writes r.1 + holding v ≡ writes p + holding r.0)
    × (reads r.1 + v.state.readers ≡ reads p + r.0.state.readers)
    × ((r.0.state.writer_holding ≡ false) ⊎ (r.0.state.readers ≡ 0))

module _ (v : RwMutex.Vars) (sound : (v.state.writer_holding ≡ false) ⊎ (v.state.readers ≡ 0)) where
  go_on-Kept : (p : RwMutex.Pc) → Kept p v (RwMutex.go_on p v)
  unfolding RwMutex.go_on RwMutex.exchange
  go_on-Kept RwMutex.load_shared = elim (Bool-cases (RwMutex.closed v.state)) [
    | inl t ↦ rw t (refl, refl, sound)
    | inr t ↦ rw t (refl, refl, sound)
  ]
  go_on-Kept (RwMutex.count_shared n) = ground (arith, sound)
  go_on-Kept (RwMutex.check_shared seq) = elim (Bool-cases (RwMutex.closed v.state)) [
    | inl t ↦ rw t (refl, refl, sound)
    | inr t ↦ rw t (refl, refl, sound)
  ]
  go_on-Kept (RwMutex.wait_shared seq) = elim (Bool-cases (v.reader_futex == seq)) [
    | inl t ↦ rw t (refl, refl, sound)
    | inr t ↦ rw t (refl, refl, sound)
  ]
  go_on-Kept RwMutex.load = elim (Bool-cases (RwMutex.same_word v.state RwMutex.zero_word)) [
    | inl t ↦ rw t (refl, refl, sound)
    | inr t ↦ rw t (elim (Bool-cases v.state.writer_waiting) [
      | inl u ↦ rw u (refl, refl, sound)
      | inr u ↦ rw u (refl, refl, sound)
    ])
  ]
  go_on-Kept RwMutex.take_free = ground (arith, sound)
  go_on-Kept RwMutex.announce = (refl, refl, sound)
  go_on-Kept (RwMutex.check seq) =
      elim (Bool-cases (not (v.state.readers == 0) || v.state.writer_holding)) [
        | inl t ↦ rw t (refl, refl, sound)
        | inr t ↦ rw t (refl, refl, sound)
      ]
  go_on-Kept RwMutex.take_announced = ground (arith, sound)
  go_on-Kept (RwMutex.wait seq) = elim (Bool-cases (v.writer_futex == seq)) [
    | inl t ↦ rw t (refl, refl, sound)
    | inr t ↦ rw t (refl, refl, sound)
  ]
  go_on-Kept p = (refl, refl, sound)

  outside-Kept : (e : RwMutex.Event) → Kept RwMutex.outside v (RwMutex.call_from_outside e v)
  unfolding RwMutex.call_from_outside RwMutex.exchange
  outside-Kept RwMutex.lock_shared = (refl, refl, sound)
  outside-Kept RwMutex.try_lock_shared = ground (arith, sound)
  outside-Kept RwMutex.lock = (refl, refl, sound)
  outside-Kept RwMutex.try_lock = ground (arith, sound)
  outside-Kept e = (refl, refl, sound)

  reading-Kept :
      (e : RwMutex.Event) → 1 ≤ v.state.readers → Kept RwMutex.reading v (RwMutex.call_reading e v)
  unfolding RwMutex.call_reading RwMutex.exchange
  reading-Kept RwMutex.unlock_shared r = ground (arith, sound, r)
  reading-Kept RwMutex.try_upgrade r = ground (arith, sound, r)
  reading-Kept e r = (refl, refl, sound)

  writing-Kept :
      (e : RwMutex.Event) → 1 ≤ holding v → Kept RwMutex.writing v (RwMutex.call_writing e v)
  unfolding RwMutex.call_writing
  writing-Kept RwMutex.unlock w = ground (arith, sound, w)
  writing-Kept RwMutex.downgrade w = ground (arith, sound, w)
  writing-Kept e w = (refl, refl, sound)

  call-Kept :
      (e : RwMutex.Event) (p : RwMutex.Pc)
      → writes p ≤ holding v
      → reads p ≤ v.state.readers
      → Kept p v (RwMutex.move e p v)
  unfolding RwMutex.move
  call-Kept RwMutex.go p w r = go_on-Kept p
  call-Kept e RwMutex.outside w r = outside-Kept e
  call-Kept e RwMutex.reading w r = reading-Kept e r
  call-Kept e RwMutex.writing w r = writing-Kept e w
  call-Kept e p w r = (refl, refl, sound)

-- A weight that wake-ups do not change.
module _ (w : RwMutex.Pc → ℕ) (shared : (p : RwMutex.Pc) → w (RwMutex.wake_shared p) ≡ w p)
    (sleeper : w RwMutex.load ≡ w RwMutex.asleep) (last : w RwMutex.outside ≡ w RwMutex.wake_last)
    (writer : w RwMutex.outside ≡ w RwMutex.wake_writer)
    (readers : w RwMutex.count_writers ≡ w RwMutex.wake_readers)
    (downgraded : w RwMutex.reading ≡ w RwMutex.wake_downgraded) where
  sum_by-wake_shared : (ps : List RwMutex.Pc) → sum_by w (map RwMutex.wake_shared ps) ≡ sum_by w ps
  unfolding sum_by
  sum_by-wake_shared [] = refl
  sum_by-wake_shared (p ∷ ps) = omega (arith, shared p, sum_by-wake_shared ps)

  sleeps-asleep : (o : Option RwMutex.Pc) → RwMutex.sleeps o ≡ true → o ≡ some RwMutex.asleep
  unfolding RwMutex.sleeps
  sleeps-asleep (some RwMutex.asleep) h = refl
  sleeps-asleep o h = absurd (ground (arith, h))

  sum_by-wake_up : (i : ℕ) (ps : List RwMutex.Pc) → sum_by w (RwMutex.wake_up i ps) ≡ sum_by w ps
  unfolding RwMutex.wake_up
  sum_by-wake_up i ps = elim (Bool-cases (RwMutex.sleeps (get_elem? ps i))) [
    | inl t ↦ rw t (
        omega (
          arith,
          sleeper,
          sum_by-set w i RwMutex.asleep RwMutex.load ps (sleeps-asleep (get_elem? ps i) t),
        ))
    | inr t ↦ rw t refl
  ]

  sum_by-wake_found :
      (pick : List RwMutex.Pc → ℕ) (o : Option RwMutex.Pc) (i : ℕ) (ps : List RwMutex.Pc)
      → get_elem? ps i ≡ o
      → sum_by w (RwMutex.wake_found pick o i ps) ≡ sum_by w ps
  unfolding RwMutex.wake_found
  sum_by-wake_found pick (some RwMutex.wake_last) i ps h = omega (
    arith,
    last,
    sum_by-wake_up (pick ps) (set i RwMutex.outside ps),
    sum_by-set w i RwMutex.wake_last RwMutex.outside ps h,
  )
  sum_by-wake_found pick (some RwMutex.wake_writer) i ps h = omega (
    arith,
    writer,
    sum_by-wake_up (pick ps) (set i RwMutex.outside ps),
    sum_by-set w i RwMutex.wake_writer RwMutex.outside ps h,
  )
  sum_by-wake_found pick (some RwMutex.wake_readers) i ps h = omega (
    arith,
    readers,
    sum_by-wake_shared (set i RwMutex.count_writers ps),
    sum_by-set w i RwMutex.wake_readers RwMutex.count_writers ps h,
  )
  sum_by-wake_found pick (some RwMutex.wake_downgraded) i ps h = omega (
    arith,
    downgraded,
    sum_by-wake_shared (set i RwMutex.reading ps),
    sum_by-set w i RwMutex.wake_downgraded RwMutex.reading ps h,
  )
  sum_by-wake_found pick o i ps h = refl

reads-wake_shared : (p : RwMutex.Pc) → reads (RwMutex.wake_shared p) ≡ reads p
unfolding RwMutex.wake_shared
reads-wake_shared RwMutex.asleep_shared = refl
reads-wake_shared p = refl

writes-wake_shared : (p : RwMutex.Pc) → writes (RwMutex.wake_shared p) ≡ writes p
unfolding RwMutex.wake_shared
writes-wake_shared RwMutex.asleep_shared = refl
writes-wake_shared p = refl

-- The word says who has the lock.
pub record Owned (m : RwMutex.RwMutex) : Type 0 where
  pub writers : sum_by writes m.threads ≡ holding m.vars
  pub readers : sum_by reads m.threads ≡ m.vars.state.readers
  pub sound : (m.vars.state.writer_holding ≡ false) ⊎ (m.vars.state.readers ≡ 0)

move_found-Owned :
    (o : Option RwMutex.Pc) (e : RwMutex.Event) (i : ℕ) (m : RwMutex.RwMutex)
    → get_elem? m.threads i ≡ o
    → Owned m
    → Owned (RwMutex.move_found o e i m)
unfolding RwMutex.move_found
move_found-Owned none e i m h own = own
move_found-Owned (some p) e i m h own =
    let q = (RwMutex.move e p m.vars).1 in
    let kept =
      call-Kept m.vars own.sound e p (omega (arith, own.writers, sum_by-le writes i p m.threads h))
        (omega (arith, own.readers, sum_by-le reads i p m.threads h)) in
    record {
      writers = omega (arith, own.writers, kept.0, sum_by-set writes i p q m.threads h);
      readers = omega (arith, own.readers, kept.1, sum_by-set reads i p q m.threads h);
      sound = kept.2;
    }

module _ (pick : List RwMutex.Pc → ℕ) where
  step-Owned : (x : RwMutex.Step) (m : RwMutex.RwMutex) → Owned m → Owned (RwMutex.step pick x m)
  unfolding RwMutex.step
  step-Owned (RwMutex.moved e i) m own = move_found-Owned (get_elem? m.threads i) e i m refl own
  step-Owned (RwMutex.woke i) m own = record {
    writers =
        sum_by-wake_found writes writes-wake_shared refl refl refl refl refl pick
          (get_elem? m.threads i) i m.threads refl
        ∙ own.writers;
    readers =
        sum_by-wake_found reads reads-wake_shared refl refl refl refl refl pick
          (get_elem? m.threads i) i m.threads refl
        ∙ own.readers;
    sound = own.sound;
  }

  run-Owned :
      (xs : List RwMutex.Step) (m : RwMutex.RwMutex) → Owned m → Owned (RwMutex.run pick xs m)
  unfolding RwMutex.run
  run-Owned [] m own = own
  run-Owned (x ∷ xs) m own = run-Owned xs (RwMutex.step pick x m) (step-Owned x m own)

  -- Whatever the threads do, in whatever order and whoever is woken: either no thread writes, or
  -- exactly one does and none reads.
  pub run-exclusive :
      (n : ℕ) (xs : List RwMutex.Step)
      → (sum_by writes (RwMutex.run pick xs (RwMutex.start n)).threads ≡ 0)
        ⊎ ((sum_by writes (RwMutex.run pick xs (RwMutex.start n)).threads ≡ 1)
            × (sum_by reads (RwMutex.run pick xs (RwMutex.start n)).threads ≡ 0))
  run-exclusive n xs =
      let own = run-Owned xs (RwMutex.start n) (record {
        writers = sum_by-replicate writes n RwMutex.outside refl;
        readers = sum_by-replicate reads n RwMutex.outside refl;
        sound = inl refl;
      }) in
      let m = RwMutex.run pick xs (RwMutex.start n) in
      elim (Bool-cases m.vars.state.writer_holding) [
        | inl t ↦ elim own.sound [
          | inl f ↦ absurd (ground (arith, t, f))
          | inr z ↦ inr (ground (arith, own.writers, t), own.readers ∙ z)
        ]
        | inr t ↦ inl (ground (arith, own.writers, t))
      ]
