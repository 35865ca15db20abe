-- ===== src/TimerWheel/Laws.antt =====
-- The promises of the timer wheel of src/timer_wheel.cpp.
use pman.Common.{
  ℕ, ◌+◌, ◌≤◌, ◌≡◌, refl, ◌∙◌, true, false, Option, none, some, if◌then◌else◌, ltb, ◌==◌, ◌&&◌,
  Bool-cases, inl, inr, All, arith,
}
use pman.TimerWheel.{
  Entry, Wheel, schedule, schedule_periodic, cancel, advance, process_expired, insert,
}
use pman.TimerWheel.Shape.{IsShaped, slot_weight, weight, Adds, insert-Adds, advance-Adds}
use pman.TimerWheel.Cancel.{
  any_live, live, any_live-cancelled, live-cancelled, cancel-weight, cancel-found, cancel-IsShaped,
  cancel-active,
}
use pman.TimerWheel.Timers.{
  IsCounted, numbered, recounted, kept, fired-weight, fired-active, fired-due, fired-any_live,
}

schedule-weight :
    (f : Entry → ℕ) (now delay : ℕ) (w : Wheel)
    → IsShaped w
    → IsShaped ((schedule now delay w).1)
      × (weight f ((schedule now delay w).1)
          ≡ weight f w
            + f (record { id = w.next_id; expiry = now + delay; period = 0; cancelled = false }))
      × (((schedule now delay w).1).active_count ≡ w.active_count + 1)
unfolding schedule
schedule-weight f now delay w s =
    (recounted _ _ added.shaped, added.more, omega (arith, added.same_active))
  where
    e : Entry
    e = record { id = w.next_id; expiry = now + delay; period = 0; cancelled = false }

    added :
        Adds f
          (f e)
          (record w { next_id = w.next_id + 1 })
          (insert now e (record w { next_id = w.next_id + 1 }))
    added =
        insert-Adds f now e (record w { next_id = w.next_id + 1 }) (numbered (w.next_id + 1) w s)

abbrev pub wheel_of : Option (ℕ × Wheel) → Wheel → Wheel
wheel_of none w = w
wheel_of (some r) w = r.1

schedule_periodic-IsCounted :
    (now period : ℕ) (w : Wheel)
    → IsCounted w
    → IsCounted (wheel_of (schedule_periodic now period w) w)
unfolding schedule_periodic
schedule_periodic-IsCounted now period w c = elim (Bool-cases (period == 0)) [
  | inl t ↦ rw t c
  | inr t ↦ rw t (record {
    shaped = recounted _ _ added.shaped;
    counted = omega (arith, added.more, added.same_active, c.counted);
  })
]
  where
    e : Entry
    e = record { id = w.next_id; expiry = now + period; period = period; cancelled = false }

    added :
        Adds any_live
          (any_live e)
          (record w { next_id = w.next_id + 1 })
          (insert now e (record w { next_id = w.next_id + 1 }))
    added =
        insert-Adds any_live now e (record w { next_id = w.next_id + 1 })
          (numbered (w.next_id + 1) w c.shaped)

cancel-IsCounted : (id : ℕ) (w : Wheel) → IsCounted w → IsCounted ((cancel id w).1)
cancel-IsCounted id w c = record {
  shaped = cancel-IsShaped id w c.shaped;
  counted = ground (
    arith,
    cancel-active id w,
    c.counted,
    cancel-weight any_live id 1 (λ e h. ground (arith, h)) any_live-cancelled w,
  );
}

process_expired-IsCounted :
    (now later : ℕ) (w : Wheel) → IsCounted w → IsCounted ((process_expired now later w).1)
process_expired-IsCounted now later w c = record {
  shaped = (fired-weight any_live now later w any_live-cancelled (λ x e. refl) c.shaped).0;
  counted = omega (
    arith,
    fired-active now later w c.shaped,
    (fired-weight any_live now later w any_live-cancelled (λ x e. refl) c.shaped).1,
    fired-any_live now later w,
    c.counted,
  );
}

-- Scheduling, cancelling, advancing and processing keep `active_count` equal to the number of
-- timers in the wheel that are not cancelled, whatever the times, in a wheel where it is so.
pub timers-IsCounted :
    (now later x id : ℕ) (w : Wheel)
    → IsCounted w
    → IsCounted ((schedule now x w).1)
      × IsCounted (wheel_of (schedule_periodic now x w) w)
      × IsCounted ((cancel id w).1)
      × IsCounted (advance now x w)
      × IsCounted ((process_expired now later w).1)
timers-IsCounted now later x id w c = (
  record {
    shaped = (schedule-weight any_live now x w c.shaped).0;
    counted = omega (
      arith,
      (schedule-weight any_live now x w c.shaped).1,
      (schedule-weight any_live now x w c.shaped).2,
      c.counted,
    );
  },
  schedule_periodic-IsCounted now x w c,
  cancel-IsCounted id w c,
  record {
    shaped = moved.shaped;
    counted = omega (arith, moved.more, moved.same_active, c.counted);
  },
  process_expired-IsCounted now later w c,
)
  where
    moved : Adds any_live 0 w (advance now x w)
    moved = advance-Adds any_live any_live-cancelled now x w c.shaped

-- Advancing the wheel by any time, with the cascades this makes, neither loses nor doubles a timer:
-- each id has as many entries that are not cancelled as before, in a wheel of the right shape.
pub advance-timers :
    (now elapsed id : ℕ) (w : Wheel)
    → IsShaped w
    → weight (live id) (advance now elapsed w) ≡ weight (live id) w
advance-timers now elapsed id w s =
    omega (arith, (advance-Adds (live id) (live-cancelled id) now elapsed w s).more)

-- A timer that fires has reached its time and is not cancelled; one that fires once is gone after
-- it fired, and a periodic one is there again; no other timer is touched. The wheel has its shape.
pub process_expired-timers :
    (now later id : ℕ) (w : Wheel)
    → IsShaped w
    → All (λ e. (e.cancelled ≡ false) × (e.expiry ≤ now)) ((process_expired now later w).0)
      × (weight (live id) ((process_expired now later w).1)
            + slot_weight (live id) ((process_expired now later w).0)
          ≡ weight (live id) w + slot_weight (kept (live id)) ((process_expired now later w).0))
process_expired-timers now later id w s = (
  fired-due now later w,
  (fired-weight (live id) now later w (live-cancelled id) (λ x e. refl) s).1,
)

cancelled-other :
    (id other : ℕ) (w : Wheel)
    → weight (live other) w
      ≡ weight (live other) ((cancel id w).1) + (if (cancel id w).0 && id == other then 1 else 0)
cancelled-other id other w =
    cancel-weight (live other) id (if id == other then 1 else 0) (λ e h. ground (arith, h))
      (live-cancelled other) w
    ∙ ground arith

-- `cancel` returns true exactly when a timer with the id is there and not cancelled; it then
-- cancels one such timer, and leaves those of every other id.
pub cancel-branches :
    (id other : ℕ) (w : Wheel)
    → ((cancel id w).0 ≡ ltb 0 (weight (live id) w))
      × (weight (live other) w
          ≡ weight (live other) ((cancel id w).1)
            + (if (cancel id w).0 && id == other then 1 else 0))
cancel-branches id other w = (cancel-found id w, cancelled-other id other w)

-- A timer scheduled under a number that no timer of the wheel has is cancelled by the first
-- `cancel` of its number, however long the wheel ran in between, and not by a second one.
pub schedule-cancel :
    (now delay later elapsed : ℕ) (w : Wheel)
    → IsShaped w
    → weight (live w.next_id) w ≡ 0
    → let w' = advance later elapsed ((schedule now delay w).1) in
      ((cancel w.next_id w').0 ≡ true) × ((cancel w.next_id ((cancel w.next_id w').1)).0 ≡ false)
schedule-cancel now delay later elapsed w s fresh =
    let scheduled = schedule-weight (live w.next_id) now delay w s in
    let moved =
      advance-Adds (live w.next_id) (live-cancelled w.next_id) later elapsed
        ((schedule now delay w).1) scheduled.0 in
    let w' = advance later elapsed ((schedule now delay w).1) in
    ground (
      arith,
      fresh,
      scheduled.1,
      moved.more,
      cancel-found w.next_id w',
      cancelled-other w.next_id w.next_id w',
      cancel-found w.next_id ((cancel w.next_id w').1),
    )
