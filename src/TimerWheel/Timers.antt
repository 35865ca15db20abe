-- ===== src/TimerWheel/Timers.antt =====
-- What becomes of the timers in src/timer_wheel.cpp: none is lost or doubled, and the count is right.
use pman.Common.{
  ℕ, ◌+◌, ◌-◌, ◌≤◌, ◌≡◌, refl, true, false, [], ◌∷◌, if◌then◌else◌, ltb, leb, ◌&&◌, not, Bool-cases,
  inl, inr, get_or, modify, sum_by, sum_by-modify_any, All, arith,
}
use pman.TimerWheel.{
  Entry, Slot, Wheel, insert, expired_of, pending_of, finish_one, finish_all, process_expired,
}
use pman.TimerWheel.Shape.{
  IsShaped, slot_weight, wheel_weight, weight, Adds, insert-Adds, change_slot-IsShaped,
}
use pman.TimerWheel.Cancel.{any_live, any_live-cancelled}

-- `active_count` is the number of entries that are not cancelled.
pub record IsCounted (w : Wheel) : Type 0 where
  pub shaped : IsShaped w
  pub counted : w.active_count ≡ weight any_live w

pub numbered : (n : ℕ) (w : Wheel) → IsShaped w → IsShaped (record w { next_id = n })
numbered n w s = record {
  some_slots = s.some_slots;
  some_wheels = s.some_wheels;
  wheels = s.wheels;
  slots = s.slots;
}

pub recounted : (n : ℕ) (w : Wheel) → IsShaped w → IsShaped (record w { active_count = n })
recounted n w s = record {
  some_slots = s.some_slots;
  some_wheels = s.some_wheels;
  wheels = s.wheels;
  slots = s.slots;
}

abbrev pub kept : (Entry → ℕ) → Entry → ℕ
kept f e = if ltb 0 e.period then f e else 0

-- What finishing a fired timer does to a weight that the time of an entry does not change.
module _ (f : Entry → ℕ) (timeless : (x : ℕ) (e : Entry) → f (record e { expiry = x }) ≡ f e) where
  finish_one-weight :
      (later : ℕ) (e : Entry) (w : Wheel)
      → IsShaped w
      → IsShaped (finish_one later e w) × (weight f (finish_one later e w) ≡ weight f w + kept f e)
  unfolding finish_one
  finish_one-weight later e w s = elim (Bool-cases (ltb 0 e.period)) [
    | inl t ↦ rw t (back.shaped, omega (arith, back.more, timeless (later + e.period) e))
    | inr t ↦ rw t (recounted (w.active_count - 1) w s, omega arith)
  ]
    where
      back :
          Adds f
            (f (record e { expiry = later + e.period }))
            w
            (insert later (record e { expiry = later + e.period }) w)
      back = insert-Adds f later (record e { expiry = later + e.period }) w s

  finish_all-weight :
      (later : ℕ) (es : Slot) (w : Wheel)
      → IsShaped w
      → IsShaped (finish_all later es w)
        × (weight f (finish_all later es w) ≡ weight f w + slot_weight (kept f) es)
  unfolding finish_all sum_by
  finish_all-weight later [] w s = (s, omega arith)
  finish_all-weight later (e ∷ es) w s =
      let first : IsShaped (finish_one later e w)
          × (weight f (finish_one later e w) ≡ weight f w + kept f e) =
        finish_one-weight later e w s in
      let rest = finish_all-weight later es (finish_one later e w) first.0 in
      (rest.0, omega (arith, first.1, rest.1))

-- Each timer that fires once is taken off the count.
abbrev pub once : Entry → ℕ
once e = if ltb 0 e.period then 0 else 1

finish_one-active :
    (later : ℕ) (e : Entry) (w : Wheel)
    → IsShaped w
    → (finish_one later e w).active_count ≡ w.active_count - once e
unfolding finish_one
finish_one-active later e w s = elim (Bool-cases (ltb 0 e.period)) [
  | inl t ↦ rw t (
      omega (
        arith,
        (insert-Adds any_live later (record e { expiry = later + e.period }) w s).same_active,
      ))
  | inr t ↦ rw t (omega arith)
]

finish_all-active :
    (later : ℕ) (es : Slot) (w : Wheel)
    → IsShaped w
    → (finish_all later es w).active_count ≡ w.active_count - slot_weight once es
unfolding finish_all sum_by
finish_all-active later [] w s = omega arith
finish_all-active later (e ∷ es) w s = omega (
  arith,
  finish_one-active later e w s,
  finish_all-active later es (finish_one later e w)
      ((finish_one-weight any_live (λ x e. refl) later e w s).0),
)

-- A slot splits into the timers that fire and those that stay.
split-weight :
    (f : Entry → ℕ) (now : ℕ)
    → ((e : Entry) → e.cancelled ≡ true → f e ≡ 0)
    → (es : Slot)
    → slot_weight f es ≡ slot_weight f (expired_of now es) + slot_weight f (pending_of now es)
unfolding expired_of pending_of sum_by
split-weight f now none_cancelled [] = refl
split-weight f now none_cancelled (e ∷ es) = elim (Bool-cases e.cancelled) [
  | inl t ↦ simp t (omega (arith, none_cancelled e t, split-weight f now none_cancelled es))
  | inr t ↦ elim (Bool-cases (leb e.expiry now)) [
    | inl u ↦ simp (t, u) (omega (arith, split-weight f now none_cancelled es))
    | inr u ↦ simp (t, u) (omega (arith, split-weight f now none_cancelled es))
  ]
]

expired-any_live :
    (now : ℕ) (es : Slot)
    → slot_weight any_live (expired_of now es)
      ≡ slot_weight once (expired_of now es) + slot_weight (kept any_live) (expired_of now es)
unfolding expired_of sum_by
expired-any_live now [] = refl
expired-any_live now (e ∷ es) = elim (Bool-cases e.cancelled) [
  | inl t ↦ simp t (expired-any_live now es)
  | inr t ↦ elim (Bool-cases (leb e.expiry now)) [
    | inl u ↦ elim (Bool-cases (ltb 0 e.period)) [
      | inl v ↦ simp (t, u, v) (omega (arith, expired-any_live now es))
      | inr v ↦ simp (t, u, v) (omega (arith, expired-any_live now es))
    ]
    | inr u ↦ simp (t, u) (expired-any_live now es)
  ]
]

-- What `processExpired` does to a weight.
pub fired-weight :
    (f : Entry → ℕ) (now later : ℕ) (w : Wheel)
    → ((e : Entry) → e.cancelled ≡ true → f e ≡ 0)
    → ((x : ℕ) (e : Entry) → f (record e { expiry = x }) ≡ f e)
    → IsShaped w
    → IsShaped ((process_expired now later w).1)
      × (weight f ((process_expired now later w).1)
            + slot_weight f ((process_expired now later w).0)
          ≡ weight f w + slot_weight (kept f) ((process_expired now later w).0))
unfolding process_expired sum_by pending_of
fired-weight f now later w none_cancelled timeless s = (
  finished.0,
  omega (
    arith,
    finished.1,
    split-weight f now none_cancelled entries,
    sum_by-modify_any (wheel_weight f) 0 (modify slot (pending_of now)) w.wheels [] refl refl,
    sum_by-modify_any (slot_weight f) slot (pending_of now) (get_or w.wheels 0 []) [] refl refl,
  ),
)
  where
    slot : ℕ
    slot = get_or w.current_slots 0 0

    entries : Slot
    entries = get_or (get_or w.wheels 0 []) slot []

    left : Wheel
    left = record w { wheels = modify 0 (modify slot (pending_of now)) w.wheels }

    finished :
        IsShaped (finish_all later (expired_of now entries) left)
        × (weight f (finish_all later (expired_of now entries) left)
            ≡ weight f left + slot_weight (kept f) (expired_of now entries))
    finished =
        finish_all-weight f timeless later (expired_of now entries) left
          (change_slot-IsShaped f none_cancelled 0 slot (pending_of now) w s)

pub fired-active :
    (now later : ℕ) (w : Wheel)
    → IsShaped w
    → ((process_expired now later w).1).active_count
      ≡ w.active_count - slot_weight once ((process_expired now later w).0)
unfolding process_expired
fired-active now later w s = finish_all-active later _ _ (
    change_slot-IsShaped any_live any_live-cancelled 0 (get_or w.current_slots 0 0) (pending_of now)
      w s)

-- What a timer that fires is, and that once-timers and periodic ones make up all that fire.
expired_of-due :
    (now : ℕ) (es : Slot) → All (λ e. (e.cancelled ≡ false) × (e.expiry ≤ now)) (expired_of now es)
unfolding expired_of
expired_of-due now [] = tt
expired_of-due now (e ∷ es) = elim (Bool-cases (not e.cancelled && leb e.expiry now)) [
  | inl t ↦ rw t (ground (arith, t), expired_of-due now es)
  | inr t ↦ rw t (expired_of-due now es)
]

pub fired-due :
    (now later : ℕ) (w : Wheel)
    → All (λ e. (e.cancelled ≡ false) × (e.expiry ≤ now)) ((process_expired now later w).0)
unfolding process_expired
fired-due now later w =
    expired_of-due now (get_or (get_or w.wheels 0 []) (get_or w.current_slots 0 0) [])

pub fired-any_live :
    (now later : ℕ) (w : Wheel)
    → slot_weight any_live ((process_expired now later w).0)
      ≡ slot_weight once ((process_expired now later w).0)
        + slot_weight (kept any_live) ((process_expired now later w).0)
unfolding process_expired
fired-any_live now later w =
    expired-any_live now (get_or (get_or w.wheels 0 []) (get_or w.current_slots 0 0) [])
