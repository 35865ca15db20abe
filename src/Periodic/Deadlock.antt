-- ===== src/Periodic/Deadlock.antt =====
-- The functions of src/periodic_scheduler.cpp that lock their mutex twice.
use pman.Common.{
  ℕ, ◌≡◌, refl, ◌∙◌, Bool, true, false, not, ◌&&◌, ◌||◌, List, [], ◌∷◌, Bool-cases, inl, inr,
}
use pman.Periodic.Wheel.{Timers}
use pman.Periodic.{
  TaskState, Run, ended, deadlock, ◌>>=◌, find, PeriodicScheduler, is_runnable, schedule_next,
  is_paused, resume_locked, resume, start_tasks, start, unlock,
}

abbrev pub is_deadlock {ℓ} : {A : Type ℓ} → Run A → Bool
is_deadlock (ended a) = false
is_deadlock deadlock = true

abbrev pub any_runnable : List (ℕ × TaskState) → Bool
any_runnable [] = false
any_runnable ((id, t) ∷ ts) = is_runnable t || any_runnable ts

bind-unlock {ℓ} :
    {W : Type ℓ} (r : Run (PeriodicScheduler W)) → is_deadlock (r >>= unlock) ≡ is_deadlock r
bind-unlock (ended s) = refl
bind-unlock deadlock = refl

module _ {ℓ} {W : Type ℓ} (wheel : Timers W) where
  schedule_next-locked :
      (id : ℕ) (is_first : Bool) (now : ℕ) (s : PeriodicScheduler W)
      → s.is_locked ≡ true
      → schedule_next wheel id is_first now s ≡ deadlock
  unfolding schedule_next
  schedule_next-locked id is_first now s h = rw h refl

  start_tasks-deadlock :
      (ts : List (ℕ × TaskState)) (now : ℕ) (s : PeriodicScheduler W)
      → s.is_locked ≡ true
      → is_deadlock (start_tasks wheel ts now s) ≡ any_runnable ts
  unfolding start_tasks
  start_tasks-deadlock [] now s h = refl
  start_tasks-deadlock ((id, t) ∷ ts) now s h = elim (Bool-cases (is_runnable t)) [
    | inl r ↦ rw (r, schedule_next-locked id true now s h) refl
    | inr r ↦ rw r (start_tasks-deadlock ts now s h)
  ]

  start_if-deadlock :
      (b : Bool) (now : ℕ) (s : PeriodicScheduler W)
      → s.is_locked ≡ false
      → s.running ≡ b
      → is_deadlock (start wheel now s) ≡ (not b && any_runnable s.tasks)
  unfolding start
  start_if-deadlock true now s free e = rw e refl
  start_if-deadlock false now s free e =
      rw (e, free)
        (bind-unlock (start_tasks wheel s.tasks now (record s { running = true; is_locked = true }))
          ∙ start_tasks-deadlock s.tasks now (record s { running = true; is_locked = true }) refl)

  resume_if-deadlock :
      (b c : Bool) (now id : ℕ) (s : PeriodicScheduler W)
      → s.is_locked ≡ false
      → s.running ≡ b
      → is_paused (find id s.tasks) ≡ c
      → is_deadlock (resume wheel id now s) ≡ (b && c)
  unfolding resume resume_locked schedule_next
  resume_if-deadlock true true now id s free e f = rw (free, f, e) refl
  resume_if-deadlock true false now id s free e f = rw (free, f) refl
  resume_if-deadlock false true now id s free e f = rw (free, f, e) refl
  resume_if-deadlock false false now id s free e f = rw (free, f) refl

  -- `start` of a scheduler that does not run deadlocks with its own mutex if and only if there is a task
  -- that is active and not paused, and `resume` if and only if the scheduler runs and the task is
  -- paused.
  pub start-deadlock :
      (now id : ℕ) (s : PeriodicScheduler W)
      → s.is_locked ≡ false
      → (is_deadlock (start wheel now s) ≡ (not s.running && any_runnable s.tasks))
        × (is_deadlock (resume wheel id now s) ≡ (s.running && is_paused (find id s.tasks)))
  start-deadlock now id s free = (
    start_if-deadlock s.running now s free refl,
    resume_if-deadlock s.running (is_paused (find id s.tasks)) now id s free refl refl,
  )
