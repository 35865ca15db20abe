-- ===== src/Sync/Semaphore/Permits.antt =====
-- The permits of a `FutexSemaphore`, src/semaphore.cpp.
use pman.Common.{
  ℕ, suc, zero, ◌+◌, ◌-◌, ◌≤◌, ◌<◌, ◌^◌, ◌≡◌, refl, true, false, List, [], ◌∷◌, Option, none, some,
  ltb, min, sum_by, sum_by-replicate, All, All-replicate, arith,
}
use pman.Common.Int.{ℤ, pos, ltb_ℤ, eqb_ℤ, ◌-ℤ◌, ◌+ℤ◌, pos_part, neg_part}
use pman.Sync.Threads.{get_elem?, set, sum_by-set, sum_by-le, All-set, All-get_elem?, either}
use pman.Sync.Semaphore.{
  Call, trying, forever, no_time, some_time, Pc, outside, loading, swapping, joining, rechecking,
  retrying, waiting, asleep, leaving, notifying, waking, Words, Semaphore, new_semaphore, Event,
  call, release, go, fail, interrupt, time_out, used_up, looked, acquire_one, go_on, released_by,
  to_int, move, wake_found, wake, Step, moved, woke, move_found, woke_found, step, run,
}

-- The threads that are counted in `waiters_`.
abbrev pub joined : Pc → ℕ
joined (rechecking k) = 1
joined (retrying k) = 1
joined (waiting k current) = 1
joined (asleep k) = 1
joined (leaving k timed_out) = 1
joined p = 0

-- A compare-exchange expects a count that is positive.
abbrev Sound : Pc → Type 0
Sound (swapping k current) = neg_part current + 1 ≤ pos_part current
Sound p = Unit

abbrev pub Fits : ℕ → Words → Type 0
Fits initial w = initial + w.released < 2 ^ 31

record Kept (initial : ℕ) (w : Words) : Type 0 where
  natural : neg_part w.count ≡ 0
  conserved : pos_part w.count + w.acquired ≡ initial + w.released
  no_underflow : w.underflows ≡ 0

abbrev KeptIf : ℕ → Words → Type 0
KeptIf initial w = Fits initial w → Kept initial w

abbrev Moves : ℕ → Words → Pc → Words × Pc → Type 0
Moves initial w p r =
    KeptIf initial r.0 × Sound r.1 × (r.0.waiters + joined p ≡ w.waiters + joined r.1)

used_up-idle : (k : Call) → Sound (used_up k) × (joined (used_up k) ≡ 0)
unfolding used_up
used_up-idle trying = (tt, refl)
used_up-idle forever = (tt, refl)
used_up-idle no_time = (tt, refl)
used_up-idle some_time = (tt, refl)

looked-idle : (k : Call) (current : ℤ) → Sound (looked k current) × (joined (looked k current) ≡ 0)
unfolding looked
looked-idle k current =
    either (λ p. Sound p × (joined p ≡ 0)) (ltb_ℤ (pos 0) current) (swapping k current) (used_up k)
      (λ b. (ground (arith, b), refl)) (λ b. used_up-idle k)

acquire_one-Kept :
    (initial : ℕ) (w : Words) (current : ℤ)
    → neg_part current + 1 ≤ pos_part current
    → eqb_ℤ w.count current ≡ true
    → Kept initial w
    → Kept initial (acquire_one w)
unfolding acquire_one ◌-ℤ◌
acquire_one-Kept initial w current h e kept = record {
  natural = ground (arith, h, e, kept.natural);
  conserved = ground (arith, h, e, kept.natural, kept.conserved);
  no_underflow = kept.no_underflow;
}

go_on-Moves :
    (initial : ℕ) (w : Words) (p : Pc)
    → joined p ≤ w.waiters
    → Sound p
    → KeptIf initial w
    → Moves initial w p (go_on w p)
unfolding go_on acquire_one
go_on-Moves initial w (loading k) j h kept =
    let idle = looked-idle k w.count in (kept, idle.0, omega (arith, idle.1))
go_on-Moves initial w (swapping k current) j h kept =
    let idle = looked-idle k w.count in
    either (Moves initial w (swapping k current)) (eqb_ℤ w.count current) (acquire_one w, outside)
      (w, looked k w.count)
      (λ b. ((λ f. acquire_one-Kept initial w current h b (kept f)), tt, refl))
      (λ b. (kept, idle.0, omega (arith, idle.1)))
go_on-Moves initial w (joining k) j h kept = (
  (λ f.
      let v = kept f in
      record { natural = v.natural; conserved = v.conserved; no_underflow = v.no_underflow }),
  tt,
  omega arith,
)
go_on-Moves initial w (rechecking k) j h kept =
    either (λ p. Moves initial w (rechecking k) (w, p)) (ltb_ℤ (pos 0) w.count) (retrying k)
      (waiting k w.count) (λ b. (kept, tt, refl)) (λ b. (kept, tt, refl))
go_on-Moves initial w (retrying k) j h kept = (
  (λ f.
      let v = kept f in
      record { natural = v.natural; conserved = v.conserved; no_underflow = v.no_underflow }),
  tt,
  omega (arith, j),
)
go_on-Moves initial w (waiting k current) j h kept =
    either (λ p. Moves initial w (waiting k current) (w, p)) (eqb_ℤ w.count current) (asleep k)
      (leaving k false) (λ b. (kept, tt, refl)) (λ b. (kept, tt, refl))
go_on-Moves initial w (leaving k timed_out) j h kept =
    either (λ p. Moves initial w (leaving k timed_out) (record w { waiters = w.waiters - 1 }, p))
      timed_out outside (loading k)
      (λ b. (
        (λ f.
            let v = kept f in
            record { natural = v.natural; conserved = v.conserved; no_underflow = v.no_underflow }),
        tt,
        omega (arith, j),
      ))
      (λ b. (
        (λ f.
            let v = kept f in
            record { natural = v.natural; conserved = v.conserved; no_underflow = v.no_underflow }),
        tt,
        omega (arith, j),
      ))
go_on-Moves initial w (notifying n) j h kept =
    either (λ p. Moves initial w (notifying n) (w, p)) (ltb 0 w.waiters) (waking (min n w.waiters))
      outside (λ b. (kept, tt, refl)) (λ b. (kept, tt, refl))
go_on-Moves initial w p j h kept = (kept, h, refl)

released_by-Kept :
    (initial n : ℕ) (w : Words)
    → Fits initial (record w { count = to_int (w.count +ℤ pos n); released = w.released + n })
    → Kept initial w
    → Kept initial (record w { count = to_int (w.count +ℤ pos n); released = w.released + n })
unfolding ◌+ℤ◌ ◌-ℤ◌ to_int
released_by-Kept initial n w f v = record {
  natural = ground (arith, f, v.natural, v.conserved);
  conserved = ground (arith, f, v.natural, v.conserved);
  no_underflow = v.no_underflow;
}

released_by-Moves :
    (initial n : ℕ) (w : Words) → KeptIf initial w → Moves initial w outside (released_by n w)
unfolding released_by
released_by-Moves initial n w kept =
    let w' : Words = record w { count = to_int (w.count +ℤ pos n); released = w.released + n } in
    either (Moves initial w outside) (ltb_ℤ w.count (pos 0))
      (record w' { underflows = w.underflows + 1 }, outside) (w', notifying n)
      (λ b. ((λ f. absurd (ground (arith, b, (kept (omega (arith, f))).natural))), tt, refl))
      (λ b. ((λ f. released_by-Kept initial n w f (kept (omega (arith, f)))), tt, refl))

move-Moves :
    (initial : ℕ) (e : Event) (w : Words) (p : Pc)
    → joined p ≤ w.waiters
    → Sound p
    → KeptIf initial w
    → Moves initial w p (move e w p)
unfolding move
move-Moves initial go w p j h kept = go_on-Moves initial w p j h kept
move-Moves initial (call k) w outside j h kept = (kept, tt, refl)
move-Moves initial (release (pos (suc n))) w outside j h kept =
    released_by-Moves initial (suc n) w kept
move-Moves initial fail w (swapping k current) j h kept =
    let idle = looked-idle k w.count in (kept, idle.0, omega (arith, idle.1))
move-Moves initial interrupt w (asleep k) j h kept = (kept, tt, refl)
move-Moves initial time_out w (asleep some_time) j h kept = (kept, tt, refl)
move-Moves initial e w p j h kept = (kept, h, refl)

record Inv (initial : ℕ) (s : Semaphore) : Type 0 where
  words : KeptIf initial s.words
  sound : All Sound s.threads
  joins : s.words.waiters ≡ sum_by joined s.threads

move_found-Inv :
    (initial : ℕ) (o : Option Pc) (e : Event) (i : ℕ) (s : Semaphore)
    → get_elem? s.threads i ≡ o
    → Inv initial s
    → Inv initial (move_found o e i s)
unfolding move_found
move_found-Inv initial none e i s h inv = inv
move_found-Inv initial (some p) e i s h inv =
    let q = (move e s.words p).1 in
    let m =
      move-Moves initial e s.words p (omega (arith, inv.joins, sum_by-le joined i p s.threads h))
        (All-get_elem? Sound i p s.threads h inv.sound) inv.words in
    record {
      words = m.0;
      sound = All-set Sound i q s.threads m.1 inv.sound;
      joins = omega (arith, inv.joins, m.2, sum_by-set joined i p q s.threads h);
    }

abbrev Same : List Pc → List Pc → Type 0
Same ps qs = All Sound qs × (sum_by joined qs ≡ sum_by joined ps)

wake_found-Same :
    (o : Option Pc) (i : ℕ) (ps : List Pc)
    → get_elem? ps i ≡ o
    → All Sound ps
    → Same ps (wake_found o i ps)
unfolding wake_found
wake_found-Same (some (asleep k)) i ps h all = (
  All-set Sound i (leaving k false) ps tt all,
  omega (arith, sum_by-set joined i (asleep k) (leaving k false) ps h),
)
wake_found-Same o i ps h all = (all, refl)

wake-Same : (n : ℕ) (chosen : List ℕ) (ps : List Pc) → All Sound ps → Same ps (wake n chosen ps)
unfolding wake
wake-Same zero chosen ps all = (all, refl)
wake-Same (suc n) [] ps all = (all, refl)
wake-Same (suc n) (i ∷ chosen) ps all =
    let one = wake_found-Same (get_elem? ps i) i ps refl all in
    let rest = wake-Same n chosen (wake_found (get_elem? ps i) i ps) one.0 in
    (rest.0, omega (arith, one.1, rest.1))

woke_found-Same :
    (o : Option Pc) (i : ℕ) (chosen : List ℕ) (ps : List Pc)
    → get_elem? ps i ≡ o
    → All Sound ps
    → Same ps (woke_found o i chosen ps)
unfolding woke_found
woke_found-Same (some (waking n)) i chosen ps h all =
    let woken = wake-Same n chosen (set i outside ps) (All-set Sound i outside ps tt all) in
    (woken.0, omega (arith, woken.1, sum_by-set joined i (waking n) outside ps h))
woke_found-Same o i chosen ps h all = (all, refl)

step-Inv : (initial : ℕ) (x : Step) (s : Semaphore) → Inv initial s → Inv initial (step x s)
unfolding step
step-Inv initial (moved e i) s inv = move_found-Inv initial (get_elem? s.threads i) e i s refl inv
step-Inv initial (woke i chosen) s inv =
    let same = woke_found-Same (get_elem? s.threads i) i chosen s.threads refl inv.sound in
    record { words = inv.words; sound = same.0; joins = omega (arith, inv.joins, same.1) }

run-Inv : (initial : ℕ) (xs : List Step) (s : Semaphore) → Inv initial s → Inv initial (run xs s)
unfolding run
run-Inv initial [] s inv = inv
run-Inv initial (x ∷ xs) s inv = run-Inv initial xs (step x s) (step-Inv initial x s inv)

new_semaphore-Inv : (initial n : ℕ) → Inv initial (new_semaphore initial n)
new_semaphore-Inv initial n = record {
  words = λ f. record { natural = refl; conserved = refl; no_underflow = refl };
  sound = All-replicate Sound n outside tt;
  joins = omega (arith, sum_by-replicate joined n outside refl);
}

-- However the calls of `acquire`, `try_acquire`, `try_acquire_for` and `release` interleave, with
-- compare-exchanges that fail, signals and timeouts, while what was there at first and what was released
-- is together less than 2^31: the count is not negative, `release` has not thrown `logic_error`, what is
-- left and what was acquired are together what was there at first and what was released, and
-- `waiters_` is the number of the threads between its two changes.
pub run-conserved :
    (initial n : ℕ) (xs : List Step)
    → initial + (run xs (new_semaphore initial n)).words.released < 2 ^ 31
    → (neg_part (run xs (new_semaphore initial n)).words.count ≡ 0)
      × ((run xs (new_semaphore initial n)).words.underflows ≡ 0)
      × (pos_part (run xs (new_semaphore initial n)).words.count
            + (run xs (new_semaphore initial n)).words.acquired
          ≡ initial + (run xs (new_semaphore initial n)).words.released)
      × ((run xs (new_semaphore initial n)).words.waiters
          ≡ sum_by joined (run xs (new_semaphore initial n)).threads)
run-conserved initial n xs fits =
    let inv = run-Inv initial xs (new_semaphore initial n) (new_semaphore-Inv initial n) in
    let kept = inv.words fits in (kept.natural, kept.no_underflow, kept.conserved, inv.joins)
