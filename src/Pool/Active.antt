-- ===== src/Pool/Active.antt =====
-- A task of the pool of src/enhanced_thread_pool.cpp, from its submission to its end: no task is run
-- twice, and what `waitIdle` says of it.
use pman.Common.{
  ℕ, ◌+◌, ◌-◌, ◌≤◌, ◌<◌, ◌≡◌, refl, ap, ◌∙◌, Bool, true, false, ◌||◌, List, [], ◌∷◌, ltb, ◌==◌,
  length, get_or, replicate, sum_by, All, eq-nil, sum_by-append, sum_by-replicate, Bool-cases, inl,
  inr, arith,
}
use pman.Common.Int.{ℤ}
use pman.Pool.{
  Entry, Worker, waiting, took, running, ended, stopped, Pool, has, start, submit_with_priority,
  cancel, cancel_all, is_idle, resize, shut_down, take, begin, complete, leave, work_from, work,
  Step, submitted, cancelled_one, cancelled_all, resized, shut, worked, or_same, step, run,
}
use pman.Pool.Balance.{
  times, queued, in_hand, places, sum_by-worker, given, drops_all, step-places, step-places-le,
  step-next_task_id, given-id, given-le,
}

-- A task is in one place at most, and an id that is not used yet in none.
pub record Once (id : ℕ) (p : Pool) : Type 0 where
  pub at_most : places id p ≤ 1
  pub fresh : p.next_task_id ≤ id → places id p ≡ 0

module _ (id : ℕ) where
  step-Once : (s : Step) (p : Pool) → Once id p → Once id (step s p)
  step-Once s p o =
      let le = step-places-le id s p in
      let next = step-next_task_id id s p in
      let few = given-le id s p in
      elim (Bool-cases (given id s p == 0)) [
        | inl t ↦ record {
          at_most = ground (arith, t, le, o.at_most);
          fresh = λ h. ground (arith, t, le, o.fresh (omega (arith, next, h)));
        }
        | inr t ↦
            let at_next = given-id id s p (ground (arith, t)) in
            let none_yet = o.fresh (omega (arith, at_next)) in
            record {
              at_most = omega (arith, le, few, none_yet);
              fresh = λ h. absurd (ground (arith, t, next, at_next, h));
            }
      ]

  run-Once : (ss : List Step) (p : Pool) → Once id p → Once id (run ss p)
  unfolding run
  run-Once [] p o = o
  run-Once (s ∷ ss) p o = run-Once ss (step s p) (step-Once s p o)

  start-Once : (n : ℕ) → Once id (start n)
  unfolding start sum_by
  start-Once n =
      let e = sum_by-replicate (in_hand id) n waiting refl in
      record { at_most = omega (arith, e); fresh = λ h. omega (arith, e) }

-- From a new pool on, whatever is called and however the workers take turns, each task is at any
-- time in one place at most: once in the queue, with one worker, or among those that are completed. So no
-- task is handed to two workers, or run a second time.
pub run-places : (id count : ℕ) (ss : List Step) → places id (run ss (start count)) ≤ 1
run-places id count ss = (run-Once id ss (start count) (start-Once id count)).at_most

-- The counter of active workers is the number of the workers that run a task or have just ended one.
abbrev pub is_active : Worker → ℕ
is_active waiting = 0
is_active (took e) = 0
is_active (running e began) = 1
is_active (ended e began) = 1
is_active stopped = 0

abbrev pub Counted : Pool → Type 0
Counted p = p.active_workers ≡ sum_by is_active p.workers

module _ (i now : ℕ) (success : Bool) (p : Pool) (c : Counted p) where
  take-Counted : (es : List Entry) → get_or p.workers i stopped ≡ waiting → Counted (take i es p)
  unfolding take
  take-Counted [] h = elim (Bool-cases p.shutting_down) [
    | inl t ↦ rw t (omega (arith, c, sum_by-worker is_active i waiting stopped p.workers h refl))
    | inr t ↦ rw t c
  ]
  take-Counted (e ∷ es) h =
      omega (arith, c, sum_by-worker is_active i waiting (took e) p.workers h refl)

  begin-Counted : (e : Entry) → get_or p.workers i stopped ≡ took e → Counted (begin i e now p)
  unfolding begin
  begin-Counted e h = elim (Bool-cases (has e.id p.cancelled)) [
    | inl t ↦ rw t (omega (arith, c, sum_by-worker is_active i (took e) waiting p.workers h refl))
    | inr t ↦
        rw t (omega (arith, c, sum_by-worker is_active i (took e) (running e now) p.workers h refl))
  ]

  work_from-Counted :
      (w : Worker) → get_or p.workers i stopped ≡ w → Counted (work_from w i now success p)
  unfolding work_from complete leave
  work_from-Counted waiting h = take-Counted p.queue h
  work_from-Counted (took e) h = begin-Counted e h
  work_from-Counted (running e began) h =
      omega (arith, c, sum_by-worker is_active i (running e began) (ended e began) p.workers h refl)
  work_from-Counted (ended e began) h =
      omega (arith, c, sum_by-worker is_active i (ended e began) waiting p.workers h refl)
  work_from-Counted stopped h = c

module _ (p : Pool) (c : Counted p) where
  submit-Counted : (priority : ℤ) (now : ℕ) → Counted ((submit_with_priority priority now p).1)
  unfolding submit_with_priority
  submit-Counted priority now = elim (Bool-cases p.shutting_down) [
    | inl t ↦ rw t c
    | inr t ↦ rw t c
  ]

  cancel-Counted : (id : ℕ) → Counted ((cancel id p).1)
  unfolding cancel
  cancel-Counted id = elim (Bool-cases (has id p.completed)) [ inl t ↦ rw t c | inr t ↦ rw t c ]

  resize-Counted : (count : ℕ) → Counted (or_same (resize count p) p)
  unfolding resize
  resize-Counted count = elim (Bool-cases (count == 0 || ltb count (length p.workers))) [
    | inl t ↦ rw t c
    | inr t ↦ rw t (
        omega (
          arith,
          c,
          sum_by-append is_active p.workers (replicate (count - length p.workers) waiting),
          sum_by-replicate is_active (count - length p.workers) waiting refl,
        ))
  ]

step-Counted : (s : Step) (p : Pool) → Counted p → Counted (step s p)
unfolding step cancel_all shut_down work
step-Counted (submitted priority now) p c = submit-Counted p c priority now
step-Counted (cancelled_one other) p c = cancel-Counted p c other
step-Counted cancelled_all p c = c
step-Counted (resized count) p c = resize-Counted p c count
step-Counted shut p c = c
step-Counted (worked i now success) p c =
    work_from-Counted i now success p c (get_or p.workers i stopped) refl

run-Counted : (ss : List Step) (p : Pool) → Counted p → Counted (run ss p)
unfolding run
run-Counted [] p c = c
run-Counted (s ∷ ss) p c = run-Counted ss (step s p) (step-Counted s p c)

start-Counted : (count : ℕ) → Counted (start count)
unfolding start
start-Counted count = omega (arith, sum_by-replicate is_active count waiting refl)

-- A task that was accepted stays in the pool as long as `cancelAll` is not called.
run-kept :
    (id : ℕ) (ss : List Step) (p : Pool)
    → All (λ (s : Step). drops_all s ≡ false) ss
    → id < p.next_task_id
    → places id (run ss p) ≡ places id p
unfolding run
run-kept id [] p h l = refl
run-kept id (s ∷ ss) p (d, h) l =
    let more = step-next_task_id id s p in
    run-kept id ss (step s p) h (omega (arith, more, l))
    ∙ (omega (arith, step-places id s p d, not_given))
  where
    not_given : given id s p ≡ 0
    not_given = elim (Bool-cases (given id s p == 0)) [
      | inl t ↦ ground (arith, t)
      | inr t ↦ absurd (omega (arith, l, given-id id s p (ground (arith, t))))
    ]

-- The number of workers that have taken an entry and are not counted as active yet.
abbrev pub is_between : Worker → ℕ
is_between waiting = 0
is_between (took e) = 1
is_between (running e began) = 0
is_between (ended e began) = 0
is_between stopped = 0

in_hand-le :
    (id : ℕ) (ws : List Worker)
    → sum_by (in_hand id) ws ≤ sum_by is_active ws + sum_by is_between ws
unfolding sum_by
in_hand-le id [] = omega arith
in_hand-le id (w ∷ ws) = omega (arith, in_hand-le id ws, one-le w)
  where
    one-le : (v : Worker) → in_hand id v ≤ is_active v + is_between v
    one-le waiting = omega arith
    one-le (took e) = ground arith
    one-le (running e began) = ground arith
    one-le (ended e began) = omega arith
    one-le stopped = omega arith

is_idle-places :
    (id : ℕ) (p : Pool)
    → Counted p
    → is_idle p ≡ true
    → sum_by is_between p.workers ≡ 0
    → times id p.completed ≡ places id p
unfolding is_idle sum_by
is_idle-places id p c idle none_between =
    let empty = eq-nil p.queue (ground (arith, idle)) in
    let le = in_hand-le id p.workers in
    let active : p.active_workers ≡ 0 = ground (arith, idle) in
    omega (arith, ap (queued id) empty, le, active, c, none_between)

-- A task that `submitWithPriority` accepts is completed when, after any further steps without
-- `cancelAll`, `waitIdle` finds the pool idle and no worker stands between taking an entry and counting
-- itself as active. It is then completed once.
pub submit-completed :
    (count now : ℕ) (priority : ℤ) (ss after : List Step)
    → (run ss (start count)).shutting_down ≡ false
    → All (λ (s : Step). drops_all s ≡ false) after
    → is_idle (run after (step (submitted priority now) (run ss (start count)))) ≡ true
    → sum_by is_between (run after (step (submitted priority now) (run ss (start count)))).workers
      ≡ 0
    → times
        (run ss (start count)).next_task_id
        (run after (step (submitted priority now) (run ss (start count)))).completed
      ≡ 1
submit-completed count now priority ss after up keeps idle none_between =
    let p = run ss (start count) in
    let id = p.next_task_id in
    let s = submitted priority now in
    let q = run after (step s p) in
    let given_one : given id s p ≡ 1 = ground (arith, up) in
    let counted =
      run-Counted after (step s p)
        (step-Counted s p (run-Counted ss (start count) (start-Counted count))) in
    let before_it = (run-Once id ss (start count) (start-Once id count)).fresh (omega arith) in
    let with_it = step-places id s p refl in
    let next = step-next_task_id id s p in
    let kept = run-kept id after (step s p) keeps (omega (arith, next, given_one)) in
    omega
      (arith, is_idle-places id q counted idle none_between, kept, with_it, before_it, given_one)
