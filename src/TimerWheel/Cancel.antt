-- ===== src/TimerWheel/Cancel.antt =====
-- `cancel` of src/timer_wheel.cpp: what it takes away, and what it finds.
use pman.Common.{
  ℕ, suc, ◌+◌, ◌-◌, ◌≡◌, refl, sym, ap, ◌∙◌, true, List, [], ◌∷◌, if◌then◌else◌, ltb, ◌==◌, ◌&&◌,
  not, Bool-cases, inl, inr, sum_by, All, length, arith,
}
use pman.TimerWheel.{Entry, Slot, Wheel, cancel_slot, cancel_wheel, cancel_wheels, cancel}
use pman.TimerWheel.Shape.{IsShaped, slot_weight, wheel_weight, weight}

-- 1 for an entry that is not cancelled, and for one with an id that is not.
abbrev pub any_live : Entry → ℕ
any_live e = if e.cancelled then 0 else 1

abbrev pub live : ℕ → Entry → ℕ
live id e = if e.id == id && not e.cancelled then 1 else 0

pub any_live-cancelled : (e : Entry) → e.cancelled ≡ true → any_live e ≡ 0
any_live-cancelled e h = rw h refl

pub live-cancelled : (id : ℕ) (e : Entry) → e.cancelled ≡ true → live id e ≡ 0
live-cancelled id e h = ground (arith, h)

-- Cancelling takes away the weight of one entry with the id.
module _ (f : Entry → ℕ) (id c : ℕ)
    (weighs : (e : Entry) → (e.id == id && not e.cancelled) ≡ true → f e ≡ c)
    (none_cancelled : (e : Entry) → e.cancelled ≡ true → f e ≡ 0) where
  cancel_slot-weight :
      (es : Slot)
      → slot_weight f es
        ≡ slot_weight f ((cancel_slot id es).1) + (if (cancel_slot id es).0 then c else 0)
  unfolding cancel_slot sum_by
  cancel_slot-weight [] = refl
  cancel_slot-weight (e ∷ es) = elim (Bool-cases (e.id == id && not e.cancelled)) [
    | inl t ↦ rw t (omega (arith, weighs e t, none_cancelled (record e { cancelled = true }) refl))
    | inr t ↦ rw t (omega (arith, cancel_slot-weight es))
  ]

  cancel_wheel-weight :
      (ss : List Slot)
      → wheel_weight f ss
        ≡ wheel_weight f ((cancel_wheel id ss).1) + (if (cancel_wheel id ss).0 then c else 0)
  unfolding cancel_wheel sum_by
  cancel_wheel-weight [] = refl
  cancel_wheel-weight (s ∷ ss) = elim (Bool-cases ((cancel_slot id s).0)) [
    | inl t ↦ rw t (ground (arith, t, cancel_slot-weight s))
    | inr t ↦ rw t (omega (arith, cancel_wheel-weight ss))
  ]

  cancel_wheels-weight :
      (vs : List (List Slot))
      → sum_by (wheel_weight f) vs
        ≡ sum_by (wheel_weight f) ((cancel_wheels id vs).1)
          + (if (cancel_wheels id vs).0 then c else 0)
  unfolding cancel_wheels sum_by
  cancel_wheels-weight [] = refl
  cancel_wheels-weight (v ∷ vs) = elim (Bool-cases ((cancel_wheel id v).0)) [
    | inl t ↦ rw t (ground (arith, t, cancel_wheel-weight v))
    | inr t ↦ rw t (omega (arith, cancel_wheels-weight vs))
  ]

  pub cancel-weight :
      (w : Wheel) → weight f w ≡ weight f ((cancel id w).1) + (if (cancel id w).0 then c else 0)
  unfolding cancel
  cancel-weight w = elim (Bool-cases ((cancel_wheels id w.wheels).0)) [
    | inl t ↦ rw t (ground (arith, t, cancel_wheels-weight w.wheels))
    | inr t ↦ rw t (omega arith)
  ]

-- A timer is found when it is there.
module _ (id : ℕ) where
  cancel_slot-found : (es : Slot) → (cancel_slot id es).0 ≡ ltb 0 (slot_weight (live id) es)
  unfolding cancel_slot sum_by
  cancel_slot-found [] = refl
  cancel_slot-found (e ∷ es) = elim (Bool-cases (e.id == id && not e.cancelled)) [
    | inl t ↦ rw t (ground arith)
    | inr t ↦ rw t (cancel_slot-found es ∙ ground arith)
  ]

  cancel_wheel-found : (ss : List Slot) → (cancel_wheel id ss).0 ≡ ltb 0 (wheel_weight (live id) ss)
  unfolding cancel_wheel sum_by
  cancel_wheel-found [] = refl
  cancel_wheel-found (s ∷ ss) = elim (Bool-cases ((cancel_slot id s).0)) [
    | inl t ↦ rw t (ground (arith, t, cancel_slot-found s))
    | inr t ↦ rw t (cancel_wheel-found ss ∙ ground (arith, t, cancel_slot-found s))
  ]

  cancel_wheels-found :
      (vs : List (List Slot)) → (cancel_wheels id vs).0 ≡ ltb 0 (sum_by (wheel_weight (live id)) vs)
  unfolding cancel_wheels sum_by
  cancel_wheels-found [] = refl
  cancel_wheels-found (v ∷ vs) = elim (Bool-cases ((cancel_wheel id v).0)) [
    | inl t ↦ rw t (ground (arith, t, cancel_wheel-found v))
    | inr t ↦ rw t (cancel_wheels-found vs ∙ ground (arith, t, cancel_wheel-found v))
  ]

  pub cancel-found : (w : Wheel) → (cancel id w).0 ≡ ltb 0 (weight (live id) w)
  unfolding cancel
  cancel-found w = elim (Bool-cases ((cancel_wheels id w.wheels).0)) [
    | inl t ↦ rw t (sym t ∙ cancel_wheels-found w.wheels)
    | inr t ↦ rw t (sym t ∙ cancel_wheels-found w.wheels)
  ]

  length-cancel_wheel : (ss : List Slot) → length ((cancel_wheel id ss).1) ≡ length ss
  unfolding cancel_wheel
  length-cancel_wheel [] = refl
  length-cancel_wheel (s ∷ ss) = elim (Bool-cases ((cancel_slot id s).0)) [
    | inl t ↦ rw t refl
    | inr t ↦ rw t (ap suc (length-cancel_wheel ss))
  ]

  length-cancel_wheels : (vs : List (List Slot)) → length ((cancel_wheels id vs).1) ≡ length vs
  unfolding cancel_wheels
  length-cancel_wheels [] = refl
  length-cancel_wheels (v ∷ vs) = elim (Bool-cases ((cancel_wheel id v).0)) [
    | inl t ↦ rw t refl
    | inr t ↦ rw t (ap suc (length-cancel_wheels vs))
  ]

  cancel_wheels-sizes :
      (n : ℕ) (vs : List (List Slot))
      → All (λ v. length v ≡ n) vs
      → All (λ v. length v ≡ n) ((cancel_wheels id vs).1)
  unfolding cancel_wheels
  cancel_wheels-sizes n [] h = h
  cancel_wheels-sizes n (v ∷ vs) h = elim (Bool-cases ((cancel_wheel id v).0)) [
    | inl t ↦ rw t (length-cancel_wheel v ∙ h.0, h.1)
    | inr t ↦ rw t (h.0, cancel_wheels-sizes n vs h.1)
  ]

  pub cancel-IsShaped : (w : Wheel) → IsShaped w → IsShaped ((cancel id w).1)
  unfolding cancel
  cancel-IsShaped w s = elim (Bool-cases ((cancel_wheels id w.wheels).0)) [
    | inl t ↦ rw t (record {
      some_slots = s.some_slots;
      some_wheels = s.some_wheels;
      wheels = length-cancel_wheels w.wheels ∙ s.wheels;
      slots = cancel_wheels-sizes w.wheel_size w.wheels s.slots;
    })
    | inr t ↦ rw t s
  ]

  pub cancel-active :
      (w : Wheel)
      → ((cancel id w).1).active_count ≡ w.active_count - (if (cancel id w).0 then 1 else 0)
  unfolding cancel
  cancel-active w = elim (Bool-cases ((cancel_wheels id w.wheels).0)) [
    | inl t ↦ rw t (omega arith)
    | inr t ↦ rw t (omega arith)
  ]
