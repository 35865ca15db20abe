-- ===== src/Sync/Once/Calls.antt =====
-- The calls of the function of a `FutexOnceFlag`, include/pman/once.hpp.
use pman.Common.{
  ℕ, ◌+◌, ◌≤◌, ◌≡◌, refl, List, [], ◌∷◌, Option, none, some, if◌then◌else◌, ◌==◌, map, sum_by,
  sum_by-replicate, arith,
}
use pman.Sync.Threads.{get_elem?, set, sum_by-set, sum_by-le}
use pman.Sync.Once.{
  Pc, outside, calling, marking, waking, failing, loading, waiting, asleep, Flag, start, Event,
  call_once, returns, throws, go, go_on, call, move, wake, Step, moved, woke, move_found,
  wake_found, step, run, has_run, running, finished,
}

-- The threads between the compare-exchange and the store that ends the call, and those of them whose
-- function has returned.
abbrev pub runs : Pc → ℕ
runs calling = 1
runs marking = 1
runs failing = 1
runs p = 0

abbrev pub marks : Pc → ℕ
marks marking = 1
marks p = 0

abbrev is_running : ℕ → ℕ
is_running state = if state == running then 1 else 0

abbrev is_finished : ℕ → ℕ
is_finished state = if state == finished then 1 else 0

-- A move keeps the word in step with the calls.
abbrev Kept : ℕ → Pc → ℕ × ℕ × Pc → Type 0
Kept state p r =
    (runs r.2 + is_running state ≡ runs p + is_running r.0)
    × (r.1 + marks p + is_finished state ≡ marks r.2 + is_finished r.0)

go_on-Kept : (state : ℕ) (p : Pc) → runs p ≤ is_running state → Kept state p (go_on state p)
unfolding go_on
go_on-Kept state loading h = ground arith
go_on-Kept state waiting h = ground arith
go_on-Kept state marking h = ground (arith, h)
go_on-Kept state failing h = ground (arith, h)
go_on-Kept state p h = (refl, omega arith)

move-Kept :
    (e : Event) (state : ℕ) (p : Pc) → runs p ≤ is_running state → Kept state p (move e state p)
unfolding move call
move-Kept go state p h = go_on-Kept state p h
move-Kept call_once state outside h = ground arith
move-Kept returns state calling h = ground (arith, h)
move-Kept throws state calling h = ground (arith, h)
move-Kept e state p h = (refl, omega arith)

-- A weight that wake-ups do not change.
module _ (w : Pc → ℕ) (same : (p : Pc) → w (wake p) ≡ w p) (out : w outside ≡ w waking) where
  sum_by-wake : (ps : List Pc) → sum_by w (map wake ps) ≡ sum_by w ps
  unfolding sum_by
  sum_by-wake [] = refl
  sum_by-wake (p ∷ ps) = omega (arith, same p, sum_by-wake ps)

  sum_by-wake_found :
      (o : Option Pc) (i : ℕ) (ps : List Pc)
      → get_elem? ps i ≡ o
      → sum_by w (wake_found o i ps) ≡ sum_by w ps
  unfolding wake_found
  sum_by-wake_found (some waking) i ps h =
      omega (arith, out, sum_by-wake (set i outside ps), sum_by-set w i waking outside ps h)
  sum_by-wake_found o i ps h = refl

runs-wake : (p : Pc) → runs (wake p) ≡ runs p
unfolding wake
runs-wake asleep = refl
runs-wake p = refl

marks-wake : (p : Pc) → marks (wake p) ≡ marks p
unfolding wake
marks-wake asleep = refl
marks-wake p = refl

pub record Owned (f : Flag) : Type 0 where
  pub one : sum_by runs f.threads ≡ is_running f.state
  pub once : f.returned ≡ sum_by marks f.threads + is_finished f.state

move_found-Owned :
    (o : Option Pc) (e : Event) (i : ℕ) (f : Flag)
    → get_elem? f.threads i ≡ o
    → Owned f
    → Owned (move_found o e i f)
unfolding move_found
move_found-Owned none e i f h own = own
move_found-Owned (some p) e i f h own =
    let q = (move e f.state p).2 in
    let kept = move-Kept e f.state p (omega (arith, own.one, sum_by-le runs i p f.threads h)) in
    record {
      one = omega (arith, own.one, kept.0, sum_by-set runs i p q f.threads h);
      once = omega (arith, own.once, kept.1, sum_by-set marks i p q f.threads h);
    }

step-Owned : (x : Step) (f : Flag) → Owned f → Owned (step x f)
unfolding step
step-Owned (moved e i) f own = move_found-Owned (get_elem? f.threads i) e i f refl own
step-Owned (woke i) f own =
    let r = sum_by-wake_found runs runs-wake refl (get_elem? f.threads i) i f.threads refl in
    let m = sum_by-wake_found marks marks-wake refl (get_elem? f.threads i) i f.threads refl in
    record { one = omega (arith, own.one, r); once = omega (arith, own.once, m) }

run-Owned : (xs : List Step) (f : Flag) → Owned f → Owned (run xs f)
unfolding run
run-Owned [] f own = own
run-Owned (x ∷ xs) f own = run-Owned xs (step x f) (step-Owned x f own)

sum_by-marks : (ps : List Pc) → sum_by marks ps ≤ sum_by runs ps
unfolding sum_by
sum_by-marks [] = omega arith
sum_by-marks (p ∷ ps) = omega (arith, one p, sum_by-marks ps)
  where
    one : (p : Pc) → marks p ≤ runs p
    one marking = omega arith
    one calling = omega arith
    one p = omega arith

-- Whatever the threads do and however often the function throws: at any time one thread at most is in a
-- call of it, the function returns once at most, and when `has_run` holds it has returned and no
-- thread is in a call.
pub run-once :
    (n : ℕ) (xs : List Step)
    → (sum_by runs (run xs (start n)).threads ≤ 1)
      × ((run xs (start n)).returned ≤ 1)
      × ((if has_run (run xs (start n)) then 1 else 0) + sum_by runs (run xs (start n)).threads ≤ 1)
      × ((if has_run (run xs (start n)) then 1 else 0) ≤ (run xs (start n)).returned)
unfolding has_run
run-once n xs =
    let f = run xs (start n) in
    let own = run-Owned xs (start n) (record {
      one = sum_by-replicate runs n outside refl;
      once = omega (arith, sum_by-replicate marks n outside refl);
    }) in
    let m = sum_by-marks f.threads in ground (arith, own.one, own.once, m)
