-- ===== src/Pool/Metered.antt =====
-- What the metrics of the pool of src/enhanced_thread_pool.cpp count.
use pman.Common.{
  ℕ, suc, ◌+◌, ◌-◌, ◌≡◌, refl, ap, Bool, ◌||◌, List, [], ◌∷◌, ltb, ◌==◌, length, get_or, replicate,
  sum_by, sum_by-append, sum_by-replicate, Bool-cases, inl, inr, arith,
}
use pman.Common.Int.{ℤ}
use pman.Pool.{
  Entry, before, push, Metrics, Worker, waiting, took, running, ended, stopped, Pool, has, start,
  entry_of, submit_with_priority, cancel, cancel_all, resize, shut_down, take, begin, complete,
  update_metrics, leave, work_from, work, Step, submitted, cancelled_one, cancelled_all, resized,
  shut, worked, or_same, step, run,
}
use pman.Pool.Balance.{sum_by-worker}

-- The worker has an entry.
abbrev pub is_busy : Worker → ℕ
is_busy waiting = 0
is_busy (took e) = 1
is_busy (running e began) = 1
is_busy (ended e began) = 1
is_busy stopped = 0

abbrev pub accounted : Metrics → ℕ
accounted m = m.tasks_completed + m.tasks_failed + m.tasks_cancelled

abbrev Metered : Pool → Type 0
Metered p =
    p.metrics.tasks_submitted ≡ accounted p.metrics + length p.queue + sum_by is_busy p.workers

length-push : (e : Entry) (es : List Entry) → length (push e es) ≡ suc (length es)
unfolding push
length-push e [] = refl
length-push e (x ∷ xs) = elim (Bool-cases (before x e)) [
  | inl t ↦ rw t refl
  | inr t ↦ rw t (omega (arith, length-push e xs))
]

update_metrics-accounted :
    (success : Bool) (wait exec : ℕ) (m : Metrics)
    → accounted (update_metrics success wait exec m) ≡ accounted m + 1
unfolding update_metrics
update_metrics-accounted success wait exec m = ground arith

update_metrics-submitted :
    (success : Bool) (wait exec : ℕ) (m : Metrics)
    → (update_metrics success wait exec m).tasks_submitted ≡ m.tasks_submitted
unfolding update_metrics
update_metrics-submitted success wait exec m = refl

module _ (p : Pool) (c : Metered p) where
  submit-Metered : (priority : ℤ) (now : ℕ) → Metered ((submit_with_priority priority now p).1)
  unfolding submit_with_priority
  submit-Metered priority now = elim (Bool-cases p.shutting_down) [
    | inl t ↦ rw t c
    | inr t ↦ rw t (omega (arith, c, length-push (entry_of priority now p) p.queue))
  ]

  cancel-Metered : (id : ℕ) → Metered ((cancel id p).1)
  unfolding cancel
  cancel-Metered id = elim (Bool-cases (has id p.completed)) [ inl t ↦ rw t c | inr t ↦ rw t c ]

  resize-Metered : (count : ℕ) → Metered (or_same (resize count p) p)
  unfolding resize
  resize-Metered count = elim (Bool-cases (count == 0 || ltb count (length p.workers))) [
    | inl t ↦ rw t c
    | inr t ↦ rw t (
        omega (
          arith,
          c,
          sum_by-append is_busy p.workers (replicate (count - length p.workers) waiting),
          sum_by-replicate is_busy (count - length p.workers) waiting refl,
        ))
  ]

module _ (i now : ℕ) (success : Bool) (p : Pool) (c : Metered p) where
  take-Metered :
      (es : List Entry)
      → p.queue ≡ es
      → get_or p.workers i stopped ≡ waiting
      → Metered (take i es p)
  unfolding take
  take-Metered [] q h = elim (Bool-cases p.shutting_down) [
    | inl t ↦ rw t (omega (arith, c, sum_by-worker is_busy i waiting stopped p.workers h refl))
    | inr t ↦ rw t c
  ]
  take-Metered (e ∷ es) q h = omega (
    arith,
    c,
    ap (length {A = Entry}) q,
    sum_by-worker is_busy i waiting (took e) p.workers h refl,
  )

  begin-Metered : (e : Entry) → get_or p.workers i stopped ≡ took e → Metered (begin i e now p)
  unfolding begin
  begin-Metered e h = elim (Bool-cases (has e.id p.cancelled)) [
    | inl t ↦ rw t (omega (arith, c, sum_by-worker is_busy i (took e) waiting p.workers h refl))
    | inr t ↦
        rw t (omega (arith, c, sum_by-worker is_busy i (took e) (running e now) p.workers h refl))
  ]

  work_from-Metered :
      (w : Worker) → get_or p.workers i stopped ≡ w → Metered (work_from w i now success p)
  unfolding work_from complete leave
  work_from-Metered waiting h = take-Metered p.queue refl h
  work_from-Metered (took e) h = begin-Metered e h
  work_from-Metered (running e began) h =
      omega (arith, c, sum_by-worker is_busy i (running e began) (ended e began) p.workers h refl)
  work_from-Metered (ended e began) h =
      let wait = began - e.submit_time in
      let exec = now - began in
      omega (
        arith,
        c,
        update_metrics-accounted success wait exec p.metrics,
        update_metrics-submitted success wait exec p.metrics,
        sum_by-worker is_busy i (ended e began) waiting p.workers h refl,
      )
  work_from-Metered stopped h = c

step-Metered : (s : Step) (p : Pool) → Metered p → Metered (step s p)
unfolding step shut_down work
step-Metered (submitted priority now) p c = submit-Metered p c priority now
step-Metered (cancelled_one other) p c = cancel-Metered p c other
step-Metered cancelled_all p c = unfold cancel_all in omega (arith, c)
step-Metered (resized count) p c = resize-Metered p c count
step-Metered shut p c = c
step-Metered (worked i now success) p c =
    work_from-Metered i now success p c (get_or p.workers i stopped) refl

start-Metered : (count : ℕ) → Metered (start count)
unfolding start
start-Metered count = omega (arith, sum_by-replicate is_busy count waiting refl)

run-Metered : (ss : List Step) (p : Pool) → Metered p → Metered (run ss p)
unfolding run
run-Metered [] p c = c
run-Metered (s ∷ ss) p c = run-Metered ss (step s p) (step-Metered s p c)

-- From a new pool on, as long as the metrics are not reset, each task that counts as submitted is
-- one of these: counted as completed, failed or cancelled, in the queue, or with a worker. The numbers
-- of these add up to the number of submitted tasks.
pub run-submitted :
    (count : ℕ) (ss : List Step)
    → (run ss (start count)).metrics.tasks_submitted
      ≡ accounted (run ss (start count)).metrics
        + length (run ss (start count)).queue
        + sum_by is_busy (run ss (start count)).workers
run-submitted count ss = run-Metered ss (start count) (start-Metered count)
