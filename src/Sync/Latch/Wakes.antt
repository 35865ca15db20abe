-- ===== src/Sync/Latch/Wakes.antt =====
-- The threads that wait for a `FutexLatch`, src/latch.cpp.
use pman.Common.{
  ℕ, ◌+◌, ◌≤◌, ◌≡◌, refl, Bool, List, [], ◌∷◌, Option, none, some, sum_by, sum_by-replicate, All,
  All-replicate, arith,
}
use pman.Common.Int.{pos, negsuc}
use pman.Sync.Threads.{get_elem?, set, sum_by-set, sum_by-le, All-set, All-get_elem?, All-imp}
use pman.Sync.Latch.{
  Pc, outside, bumping, waking, returned, Latch, new_latch, after, counted_down, Event, move, Step,
  counted, bumped, woke, moved, count_found, bump_found, wake_found, move_found, step, run,
}
use pman.Sync.Latch.Places.{
  bumps, wakes, sleeps, current, Behind, Behind-later, Counts, Counts-sub, move-Follows,
  after-Behind, counted_down-Behind, last-bumps, next-current, wake-Behind, wake-bumps,
  wake-current, wake-sleeps, after-idle,
}

-- Until more is counted down than is expected, a thread that sleeps, or is about to, is one that a thread
-- in `count_down` is still to wake.
record Inv (expected : ℕ) (l : Latch) : Type 0 where
  counts : Counts expected l.counted l.counter
  behind : All (Behind expected l.counted l.futex) l.threads
  quiet : l.counted ≡ expected → sum_by bumps l.threads ≡ 0 → sum_by (current l.futex) l.threads ≡ 0
  awake :
      l.counted ≡ expected
      → sum_by bumps l.threads ≡ 0
      → sum_by wakes l.threads ≡ 0
      → sum_by sleeps l.threads ≡ 0

move_found-Inv :
    (expected : ℕ) (o : Option Pc) (e : Event) (i : ℕ) (l : Latch)
    → get_elem? l.threads i ≡ o
    → Inv expected l
    → Inv expected (move_found o e i l)
unfolding move_found
move_found-Inv expected none e i l h inv = inv
move_found-Inv expected (some p) e i l h inv =
    let q = move e l.counter l.futex p in
    let f =
      move-Follows e expected l.counted l.futex l.counter p inv.counts
        (All-get_elem? (Behind expected l.counted l.futex) i p l.threads h inv.behind) in
    let b = sum_by-set bumps i p q l.threads h in
    let w = sum_by-set wakes i p q l.threads h in
    let c = sum_by-set (current l.futex) i p q l.threads h in
    let z = sum_by-set sleeps i p q l.threads h in
    let le = sum_by-le (current l.futex) i p l.threads h in
    record {
      counts = inv.counts;
      behind = All-set (Behind expected l.counted l.futex) i q l.threads f.0 inv.behind;
      quiet = λ all none_bump.
          omega (arith, inv.quiet all (omega (arith, b, f.1, none_bump)), c, f.3 all);
      awake = λ all none_bump none_wake.
          let nb : sum_by bumps l.threads ≡ 0 = omega (arith, b, f.1, none_bump) in
          omega (
            arith,
            inv.quiet all nb,
            inv.awake all nb (omega (arith, w, f.2, none_wake)),
            z,
            f.4,
            le,
          );
    }

count_found-Inv :
    (expected : ℕ) (o : Option Pc) (n : ℕ) (waits : Bool) (i : ℕ) (l : Latch)
    → get_elem? l.threads i ≡ o
    → Inv expected l
    → Inv expected (count_found o n waits i l)
unfolding count_found
count_found-Inv expected (some outside) n waits i l h inv =
    let q = counted_down l.counter n waits in
    let total = l.counted + n in
    let b = sum_by-set bumps i outside q l.threads h in
    let earlier =
      All-imp (Behind expected l.counted l.futex) (Behind expected total l.futex) l.threads
        (λ p. Behind-later expected l.counted total l.futex l.futex p (omega arith) (omega arith))
        inv.behind in
    record {
      counts = Counts-sub expected l.counted n l.counter inv.counts;
      behind =
          All-set (Behind expected total l.futex) i q l.threads
            (counted_down-Behind expected total l.futex n l.counter waits) earlier;
      quiet = λ all none_bump.
          omega
            (arith, b, none_bump, last-bumps expected l.counted n l.counter waits inv.counts all);
      awake = λ all none_bump none_wake.
          omega
            (arith, b, none_bump, last-bumps expected l.counted n l.counter waits inv.counts all);
    }
count_found-Inv expected o n waits i l h inv = inv

bump_found-Inv :
    (expected : ℕ) (o : Option Pc) (i : ℕ) (l : Latch)
    → get_elem? l.threads i ≡ o
    → Inv expected l
    → Inv expected (bump_found o i l)
unfolding bump_found
bump_found-Inv expected (some (bumping waits)) i l h inv =
    let c = sum_by-set (current (l.futex + 1)) i (bumping waits) (waking waits) l.threads h in
    let w = sum_by-set wakes i (bumping waits) (waking waits) l.threads h in
    let later =
      All-imp (Behind expected l.counted l.futex) (Behind expected l.counted (l.futex + 1))
        l.threads
        (λ p.
          Behind-later expected l.counted l.counted l.futex (l.futex + 1) p (omega arith)
            (omega arith))
        inv.behind in
    record {
      counts = inv.counts;
      behind =
          All-set (Behind expected l.counted (l.futex + 1)) i (waking waits) l.threads tt later;
      quiet = λ all none_bump.
          omega (arith, c, next-current expected l.counted l.futex l.threads inv.behind);
      awake = λ all none_bump none_wake. omega (arith, w, none_wake);
    }
bump_found-Inv expected o i l h inv = inv

wake_found-Inv :
    (expected : ℕ) (o : Option Pc) (i : ℕ) (l : Latch)
    → get_elem? l.threads i ≡ o
    → Inv expected l
    → Inv expected (record l { threads = wake_found o i l.threads })
unfolding wake_found
wake_found-Inv expected (some (waking waits)) i l h inv =
    let ps = set i (after waits) l.threads in
    let idle = after-idle l.futex waits in
    let b = sum_by-set bumps i (waking waits) (after waits) l.threads h in
    let c = sum_by-set (current l.futex) i (waking waits) (after waits) l.threads h in
    record {
      counts = inv.counts;
      behind = wake-Behind expected l.counted l.futex ps (
          All-set (Behind expected l.counted l.futex) i (after waits) l.threads
            (after-Behind expected l.counted l.futex waits) inv.behind);
      quiet = λ all none_bump.
          let nb : sum_by bumps l.threads ≡ 0 =
            omega (arith, b, idle.0, wake-bumps ps, none_bump) in
          omega (arith, inv.quiet all nb, c, idle.1, wake-current l.futex ps);
      awake = λ all none_bump none_wake. wake-sleeps ps;
    }
wake_found-Inv expected o i l h inv = inv

step-Inv : (expected : ℕ) (x : Step) (l : Latch) → Inv expected l → Inv expected (step x l)
unfolding step
step-Inv expected (counted (pos n) waits i) l inv =
    count_found-Inv expected (get_elem? l.threads i) n waits i l refl inv
step-Inv expected (counted (negsuc n) waits i) l inv = inv
step-Inv expected (bumped i) l inv = bump_found-Inv expected (get_elem? l.threads i) i l refl inv
step-Inv expected (woke i) l inv = wake_found-Inv expected (get_elem? l.threads i) i l refl inv
step-Inv expected (moved e i) l inv = move_found-Inv expected (get_elem? l.threads i) e i l refl inv

run-Inv : (expected : ℕ) (xs : List Step) (l : Latch) → Inv expected l → Inv expected (run xs l)
unfolding run
run-Inv expected [] l inv = inv
run-Inv expected (x ∷ xs) l inv = run-Inv expected xs (step x l) (step-Inv expected x l inv)

new_latch-Inv : (expected n : ℕ) → Inv expected (new_latch expected n)
new_latch-Inv expected n = record {
  counts = omega arith;
  behind = All-replicate (Behind expected 0 0) n outside tt;
  quiet = λ all none_bump. sum_by-replicate (current 0) n outside refl;
  awake = λ all none_bump none_wake. sum_by-replicate sleeps n outside refl;
}

-- However the calls interleave, a thread that has returned from `wait` or `arrive_and_wait` did so after the
-- expected count was counted down.
pub run-opened :
    (expected n i : ℕ) (xs : List Step)
    → get_elem? (run xs (new_latch expected n)).threads i ≡ some returned
    → expected ≤ (run xs (new_latch expected n)).counted
run-opened expected n i xs h =
    let l = run xs (new_latch expected n) in
    All-get_elem? (Behind expected l.counted l.futex) i returned l.threads h
      (run-Inv expected xs (new_latch expected n) (new_latch-Inv expected n)).behind

-- No wake-up is lost: once exactly the expected count is counted down, and no call of `count_down` is
-- left before its `fetch_add` or its wake-up, no thread is asleep.
pub run-awake :
    (expected n : ℕ) (xs : List Step)
    → (run xs (new_latch expected n)).counted ≡ expected
    → sum_by bumps (run xs (new_latch expected n)).threads ≡ 0
    → sum_by wakes (run xs (new_latch expected n)).threads ≡ 0
    → sum_by sleeps (run xs (new_latch expected n)).threads ≡ 0
run-awake expected n xs all none_bump none_wake =
    (run-Inv expected xs (new_latch expected n) (new_latch-Inv expected n)).awake all none_bump
      none_wake
