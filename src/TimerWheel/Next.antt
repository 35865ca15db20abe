-- ===== src/TimerWheel/Next.antt =====
-- When the timer wheel of src/timer_wheel.cpp is next to be looked at.
use pman.Common.{
  ℕ, ◌+◌, ◌≡◌, ◌∙◌, List, [], ◌∷◌, if◌then◌else◌, ltb, leb, ◌==◌, ◌&&◌, ◌||◌, not, arith,
}
use pman.TimerWheel.{
  day, Slot, Wheel, earliest_slot, earliest_wheel, earliest_wheels, pending_slot, pending_wheel,
  pending_wheels, time_until_next_expiry, pending_expirations,
}

module _ (now : ℕ) where
  due_slot :
      (sofar : ℕ) (es : Slot)
      → leb (earliest_slot sofar es) now ≡ (leb sofar now || ltb 0 (pending_slot now es))
  unfolding earliest_slot pending_slot
  due_slot sofar [] = ground arith
  due_slot sofar (e ∷ es) =
      due_slot (if not e.cancelled && ltb e.expiry sofar then e.expiry else sofar) es ∙ ground arith

  due_wheel :
      (sofar : ℕ) (ss : List Slot)
      → leb (earliest_wheel sofar ss) now ≡ (leb sofar now || ltb 0 (pending_wheel now ss))
  unfolding earliest_wheel pending_wheel
  due_wheel sofar [] = ground arith
  due_wheel sofar (s ∷ ss) = due_wheel (earliest_slot sofar s) ss ∙ ground (arith, due_slot sofar s)

  due_wheels :
      (sofar : ℕ) (vs : List (List Slot))
      → leb (earliest_wheels sofar vs) now ≡ (leb sofar now || ltb 0 (pending_wheels now vs))
  unfolding earliest_wheels pending_wheels
  due_wheels sofar [] = ground arith
  due_wheels sofar (v ∷ vs) =
      due_wheels (earliest_wheel sofar v) vs ∙ ground (arith, due_wheel sofar v)

-- The time until the next expiry is 0 exactly when an expiration is pending: when a timer that is
-- not cancelled has reached its time.
pub next_expiry-pending :
    (now : ℕ) (w : Wheel) → (time_until_next_expiry now w == 0) ≡ ltb 0 (pending_expirations now w)
unfolding time_until_next_expiry pending_expirations
next_expiry-pending now w = ground (arith, due_wheels now (now + day) w.wheels)
