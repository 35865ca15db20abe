-- ===== src/Pool/Balance.antt =====
-- Where a task is, in the pool of src/enhanced_thread_pool.cpp: in the queue, with a worker, or done.
use pman.Common.{
  ℕ, zero, suc, ◌+◌, ◌-◌, ◌≤◌, ◌≡◌, refl, ap, Bool, true, false, not, ◌&&◌, ◌||◌, List, [], ◌∷◌,
  if◌then◌else◌, ltb, ◌==◌, length, get_or, modify, replicate, sum_by, sum_by-append,
  sum_by-replicate, Bool-cases, inl, inr, arith, ◌≢◌,
}
use pman.Common.Int.{ℤ}
use pman.Pool.{
  Entry, before, push, Worker, waiting, took, running, ended, stopped, Pool, has, entry_of,
  submit_with_priority, cancel, cancel_all, resize, shut_down, take, begin, complete, leave,
  work_from, work, Step, submitted, cancelled_one, cancelled_all, resized, shut, worked, or_same,
  step,
}

-- How often an id is in a list, in the queue, and with the workers before their task has ended.
abbrev pub times : ℕ → List ℕ → ℕ
times id = sum_by (λ x. if x == id then 1 else 0)

abbrev pub queued : ℕ → List Entry → ℕ
queued id = sum_by (λ (e : Entry). if e.id == id then 1 else 0)

abbrev pub in_hand : ℕ → Worker → ℕ
in_hand id waiting = 0
in_hand id (took e) = if e.id == id then 1 else 0
in_hand id (running e began) = if e.id == id then 1 else 0
in_hand id (ended e began) = 0
in_hand id stopped = 0

abbrev pub places : ℕ → Pool → ℕ
places id p = queued id p.queue + sum_by (in_hand id) p.workers + times id p.completed

queued-push :
    (id : ℕ) (e : Entry) (es : List Entry)
    → queued id (push e es) ≡ (if e.id == id then 1 else 0) + queued id es
unfolding push sum_by
queued-push id e [] = refl
queued-push id e (x ∷ xs) = elim (Bool-cases (before x e)) [
  | inl t ↦ rw t refl
  | inr t ↦ rw t (omega (arith, queued-push id e xs))
]

-- A worker that is there changes its state.
abbrev pub is_up : Worker → Bool
is_up waiting = true
is_up (took e) = true
is_up (running e began) = true
is_up (ended e began) = true
is_up stopped = false

pub sum_by-worker :
    (f : Worker → ℕ) (i : ℕ) (w v : Worker) (ws : List Worker)
    → get_or ws i stopped ≡ w
    → is_up w ≡ true
    → sum_by f (modify i (λ x. v) ws) + f w ≡ sum_by f ws + f v
unfolding sum_by
sum_by-worker f i w v [] h u = cc (ap is_up h)
sum_by-worker f zero w v (x ∷ ws) h u = omega (arith, ap f h)
sum_by-worker f (suc i) w v (x ∷ ws) h u = omega (arith, sum_by-worker f i w v ws h u)

module _ (id i : ℕ) where
  take-places :
      (es : List Entry) (p : Pool)
      → p.queue ≡ es
      → get_or p.workers i stopped ≡ waiting
      → places id (take i es p) ≡ places id p
  unfolding take sum_by
  take-places [] p q h = elim (Bool-cases p.shutting_down) [
    | inl t ↦ rw t (omega (arith, sum_by-worker (in_hand id) i waiting stopped p.workers h refl))
    | inr t ↦ rw t refl
  ]
  take-places (e ∷ es) p q h =
      omega
        (arith, ap (queued id) q, sum_by-worker (in_hand id) i waiting (took e) p.workers h refl)

  begin-places :
      (e : Entry) (now : ℕ) (p : Pool)
      → get_or p.workers i stopped ≡ took e
      → places id (begin i e now p) ≡ places id p
  unfolding begin sum_by
  begin-places e now p h = elim (Bool-cases (has e.id p.cancelled)) [
    | inl t ↦ rw t (omega (arith, sum_by-worker (in_hand id) i (took e) waiting p.workers h refl))
    | inr t ↦
        rw t (omega (arith, sum_by-worker (in_hand id) i (took e) (running e now) p.workers h refl))
  ]

  -- The worker `i` is at `w`, and goes on from there: no task comes or goes.
  work_from-places :
      (w : Worker) (now : ℕ) (success : Bool) (p : Pool)
      → get_or p.workers i stopped ≡ w
      → places id (work_from w i now success p) ≡ places id p
  unfolding work_from complete leave sum_by
  work_from-places waiting now success p h = take-places p.queue p refl h
  work_from-places (took e) now success p h = begin-places e now p h
  work_from-places (running e began) now success p h =
      omega (arith, sum_by-worker (in_hand id) i (running e began) (ended e began) p.workers h refl)
  work_from-places (ended e began) now success p h =
      omega (arith, sum_by-worker (in_hand id) i (ended e began) waiting p.workers h refl)
  work_from-places stopped now success p h = refl

submit-places :
    (id : ℕ) (priority : ℤ) (now : ℕ) (p : Pool)
    → places id ((submit_with_priority priority now p).1)
      ≡ places id p + (if not p.shutting_down && p.next_task_id == id then 1 else 0)
unfolding submit_with_priority entry_of
submit-places id priority now p = elim (Bool-cases p.shutting_down) [
  | inl t ↦ rw t (omega arith)
  | inr t ↦ rw t (omega (arith, queued-push id (entry_of priority now p) p.queue))
]

resize-places : (id count : ℕ) (p : Pool) → places id (or_same (resize count p) p) ≡ places id p
unfolding resize
resize-places id count p = elim (Bool-cases (count == 0 || ltb count (length p.workers))) [
  | inl t ↦ rw t refl
  | inr t ↦ rw t (
      omega (
        arith,
        sum_by-append (in_hand id) p.workers (replicate (count - length p.workers) waiting),
        sum_by-replicate (in_hand id) (count - length p.workers) waiting refl,
      ))
]

cancel-places : (id other : ℕ) (p : Pool) → places id ((cancel other p).1) ≡ places id p
unfolding cancel
cancel-places id other p = elim (Bool-cases (has other p.completed)) [
  | inl t ↦ rw t refl
  | inr t ↦ rw t refl
]

-- What a step gives a task: only its own submission brings it in, and only `cancelAll` takes it out.
abbrev pub given : ℕ → Step → Pool → ℕ
given id (submitted priority now) p = if not p.shutting_down && p.next_task_id == id then 1 else 0
given id (cancelled_one other) p = 0
given id cancelled_all p = 0
given id (resized count) p = 0
given id shut p = 0
given id (worked i now success) p = 0

abbrev pub drops_all : Step → Bool
drops_all (submitted priority now) = false
drops_all (cancelled_one other) = false
drops_all cancelled_all = true
drops_all (resized count) = false
drops_all shut = false
drops_all (worked i now success) = false

pub step-places :
    (id : ℕ) (s : Step) (p : Pool)
    → drops_all s ≡ false
    → places id (step s p) ≡ places id p + given id s p
unfolding step shut_down work
step-places id (submitted priority now) p h = submit-places id priority now p
step-places id (cancelled_one other) p h = omega (arith, cancel-places id other p)
step-places id cancelled_all p h = absurd (ground (arith, h))
step-places id (resized count) p h = omega (arith, resize-places id count p)
step-places id shut p h = omega arith
step-places id (worked i now success) p h =
    omega (arith, work_from-places id i (get_or p.workers i stopped) now success p refl)

pub step-places-le :
    (id : ℕ) (s : Step) (p : Pool) → places id (step s p) ≤ places id p + given id s p
unfolding step cancel_all sum_by
step-places-le id (submitted priority now) p =
    omega (arith, step-places id (submitted priority now) p refl)
step-places-le id (cancelled_one other) p =
    omega (arith, step-places id (cancelled_one other) p refl)
step-places-le id cancelled_all p = omega arith
step-places-le id (resized count) p = omega (arith, step-places id (resized count) p refl)
step-places-le id shut p = omega (arith, step-places id shut p refl)
step-places-le id (worked i now success) p =
    omega (arith, step-places id (worked i now success) p refl)

-- A step that brings in a task uses up its id.
work_from-next_task_id :
    (w : Worker) (i now : ℕ) (success : Bool) (p : Pool)
    → (work_from w i now success p).next_task_id ≡ p.next_task_id
unfolding work_from take begin complete leave
work_from-next_task_id waiting i now success p = take-next_task_id p.queue
  where
    take-next_task_id : (es : List Entry) → (take i es p).next_task_id ≡ p.next_task_id
    take-next_task_id [] = elim (Bool-cases p.shutting_down) [
      | inl t ↦ rw t refl
      | inr t ↦ rw t refl
    ]
    take-next_task_id (e ∷ es) = refl
work_from-next_task_id (took e) i now success p = elim (Bool-cases (has e.id p.cancelled)) [
  | inl t ↦ rw t refl
  | inr t ↦ rw t refl
]
work_from-next_task_id (running e began) i now success p = refl
work_from-next_task_id (ended e began) i now success p = refl
work_from-next_task_id stopped i now success p = refl

pub step-next_task_id :
    (id : ℕ) (s : Step) (p : Pool) → p.next_task_id + given id s p ≤ (step s p).next_task_id
unfolding step submit_with_priority cancel cancel_all resize shut_down work
step-next_task_id id (submitted priority now) p = ground arith
step-next_task_id id (cancelled_one other) p = ground arith
step-next_task_id id cancelled_all p = omega arith
step-next_task_id id (resized count) p = ground arith
step-next_task_id id shut p = omega arith
step-next_task_id id (worked i now success) p =
    omega (arith, work_from-next_task_id (get_or p.workers i stopped) i now success p)

pub given-id : (id : ℕ) (s : Step) (p : Pool) → given id s p ≢ 0 → p.next_task_id ≡ id
given-id id (submitted priority now) p h = ground (arith, h)
given-id id (cancelled_one other) p h = absurd (h refl)
given-id id cancelled_all p h = absurd (h refl)
given-id id (resized count) p h = absurd (h refl)
given-id id shut p h = absurd (h refl)
given-id id (worked i now success) p h = absurd (h refl)

pub given-le : (id : ℕ) (s : Step) (p : Pool) → given id s p ≤ 1
given-le id (submitted priority now) p = ground arith
given-le id (cancelled_one other) p = omega arith
given-le id cancelled_all p = omega arith
given-le id (resized count) p = omega arith
given-le id shut p = omega arith
given-le id (worked i now success) p = omega arith
