-- ===== src/TimerWheel/Examples.antt =====
-- Runs of the timer wheel of src/timer_wheel.cpp on two wheels of four slots, with a tick of 1.
use pman.Common.{ℕ, ◌≡◌, refl, false, [], ◌∷◌, ltb, ◌==◌, sum_by, arith}
use pman.TimerWheel.{
  Entry, Slot, Wheel, schedule, schedule_periodic, cancel, advance, process_expired, advance_one,
  cascade, insert,
}
use pman.TimerWheel.Shape.{IsShaped, weight}
use pman.TimerWheel.Cancel.{live}
use pman.TimerWheel.Timers.{IsCounted}
use pman.TimerWheel.{time_until_next_expiry, pending_expirations}
use pman.TimerWheel.Next.{next_expiry-pending}
use pman.TimerWheel.Laws.{timers-IsCounted, advance-timers, wheel_of}

abbrev soon : Entry
soon = record { id = 1; expiry = 2; period = 0; cancelled = false }

abbrev again : Entry
again = record { id = 2; expiry = 3; period = 3; cancelled = false }

abbrev distant : Entry
distant = record { id = 3; expiry = 5; period = 0; cancelled = false }

-- Timers due at 2 and 3 in the lower wheel, the second one periodic, and one due at 5 in the upper.
abbrev wheel : Wheel
wheel = record {
  tick_duration = 1;
  wheel_size = 4;
  num_wheels = 2;
  wheels = ([] ∷ [] ∷ (soon ∷ []) ∷ (again ∷ []) ∷ []) ∷ ([] ∷ (distant ∷ []) ∷ [] ∷ [] ∷ []) ∷ [];
  current_slots = 0 ∷ 0 ∷ [];
  next_id = 4;
  active_count = 3;
}

wheel-IsShaped : IsShaped wheel
wheel-IsShaped = record {
  some_slots = omega arith;
  some_wheels = omega arith;
  wheels = refl;
  slots = (refl, (refl, tt));
}

wheel-IsCounted : IsCounted wheel
unfolding sum_by
wheel-IsCounted = record { shaped = wheel-IsShaped; counted = refl }

fired_at : ℕ → Slot
fired_at n = (process_expired n n (advance n n wheel)).0

-- The timer due at 2 fires at the second tick.
fired_at_2 : fired_at 2 ≡ soon ∷ []
unfolding process_expired advance fired_at advance_one cascade insert
fired_at_2 = refl

-- The timer due at 5 does not fire at the fifth tick, though its slot comes up: the upper wheel
-- hands down its slot before it moves on, so that the slot of 5 is handed down at the eighth.
fired_at_5 : fired_at 5 ≡ []
unfolding process_expired advance fired_at advance_one cascade insert
fired_at_5 = refl

fired_at_8 : fired_at 8 ≡ distant ∷ []
unfolding process_expired advance fired_at advance_one cascade insert
fired_at_8 = refl

timers-IsCounted_example :
    IsCounted ((schedule 1 6 wheel).1)
    × IsCounted (wheel_of (schedule_periodic 1 6 wheel) wheel)
    × IsCounted ((cancel 2 wheel).1)
    × IsCounted (advance 1 6 wheel)
    × IsCounted ((process_expired 1 1 wheel).1)
timers-IsCounted_example = timers-IsCounted 1 1 6 2 wheel wheel-IsCounted

advance-timers_example : weight (live 3) (advance 8 8 wheel) ≡ weight (live 3) wheel
advance-timers_example = advance-timers 8 8 3 wheel wheel-IsShaped

none_numbered_4 : weight (live 4) wheel ≡ 0
unfolding sum_by
none_numbered_4 = refl

next_expiry-pending_example :
    (time_until_next_expiry 2 wheel == 0) ≡ ltb 0 (pending_expirations 2 wheel)
next_expiry-pending_example = next_expiry-pending 2 wheel
