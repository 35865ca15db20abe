-- ===== src/TimerWheel/Shape.antt =====
-- The shape of the wheel of src/timer_wheel.cpp, and what its operations do to a weight of entries.
use pman.Common.{
  ℕ, zero, suc, ◌+◌, ◌-◌, ◌%◌, ◌/◌, ◌<◌, ◌≡◌, refl, sym, subst, ◌∙◌, Bool, true, false, List, [],
  ◌∷◌, ◌++◌, length, if◌then◌else◌, ltb, leb, ◌==◌, ◌||◌, Bool-cases, get_or, modify, sum_by,
  sum_by-append, sum_by-modify, sum_by-modify_any, inl, inr, length-modify, All, All-modify,
  All-get_or, arith,
}
use pman.TimerWheel.{
  Entry, Slot, Wheel, insert_from, push_entry, compute_slot, insert, insert_all, cascade, next_slot,
  cascade_from, advance_one, advance_ticks, advance,
}

-- Every wheel has `wheel_size` slots, and there are `num_wheels` of them.
pub record IsShaped (w : Wheel) : Type 0 where
  pub some_slots : 0 < w.wheel_size
  pub some_wheels : 0 < w.num_wheels
  pub wheels : length w.wheels ≡ w.num_wheels
  pub slots : All (λ v. length v ≡ w.wheel_size) w.wheels

-- The sum of a weight over all entries.
abbrev pub slot_weight : (Entry → ℕ) → Slot → ℕ
slot_weight f = sum_by f

abbrev pub wheel_weight : (Entry → ℕ) → List Slot → ℕ
wheel_weight f = sum_by (slot_weight f)

abbrev pub weight : (Entry → ℕ) → Wheel → ℕ
weight f w = sum_by (wheel_weight f) w.wheels

-- `w'` has entries of weight `n` more than `w`, and is `w` in its other parts.
pub record Adds (f : Entry → ℕ) (n : ℕ) (w w' : Wheel) : Type 0 where
  pub shaped : IsShaped w'
  pub more : weight f w' ≡ weight f w + n
  pub same_active : w'.active_count ≡ w.active_count
  pub same_size : w'.wheel_size ≡ w.wheel_size
  pub same_num : w'.num_wheels ≡ w.num_wheels

module _ (f : Entry → ℕ) where
  pub Adds-refl : (w : Wheel) → IsShaped w → Adds f 0 w w
  Adds-refl w s = record {
    shaped = s;
    more = omega arith;
    same_active = refl;
    same_size = refl;
    same_num = refl;
  }

  pub Adds-trans : {m n : ℕ} {u v w : Wheel} → Adds f m u v → Adds f n v w → Adds f (m + n) u w
  Adds-trans a b = record {
    shaped = b.shaped;
    more = omega (arith, a.more, b.more);
    same_active = b.same_active ∙ a.same_active;
    same_size = b.same_size ∙ a.same_size;
    same_num = b.same_num ∙ a.same_num;
  }

  push_entry-Adds :
      (index slot : ℕ) (e : Entry) (w : Wheel)
      → IsShaped w
      → index < w.num_wheels
      → slot < w.wheel_size
      → Adds f (f e) w (push_entry index slot e w)
  unfolding push_entry sum_by
  push_entry-Adds index slot e w s i j = record {
    shaped = record {
      some_slots = s.some_slots;
      some_wheels = s.some_wheels;
      wheels = length-modify index _ w.wheels ∙ s.wheels;
      slots =
          All-modify (λ v. length v ≡ w.wheel_size) index _ w.wheels
            (λ v h. length-modify slot _ v ∙ h) s.slots;
    };
    more = omega (
      arith,
      sum_by-modify (wheel_weight f) index (modify slot (λ es. es ++ e ∷ [])) w.wheels [] in_wheels,
      sum_by-modify (slot_weight f) slot (λ es. es ++ e ∷ []) (get_or w.wheels index []) []
          in_slots,
      sum_by-append f (get_or (get_or w.wheels index []) slot []) (e ∷ []),
    );
    same_active = refl;
    same_size = refl;
    same_num = refl;
  }
    where
      in_wheels : index < length w.wheels
      in_wheels = omega (arith, s.wheels)

      in_slots : slot < length (get_or w.wheels index [])
      in_slots =
          omega
            (arith, All-get_or (λ v. length v ≡ w.wheel_size) index w.wheels [] in_wheels s.slots)

  slot_in : (a b n : ℕ) → 0 < n → (a + b) % n < n
  slot_in a b n h = omega arith

  insert_from-Adds :
      (left index delay : ℕ) (e : Entry) (w : Wheel)
      → IsShaped w
      → index + suc left ≡ w.num_wheels
      → Adds f (f e) w (insert_from (suc left) index delay e w)
  unfolding insert_from
  insert_from-Adds zero index delay e w s h =
      elim (Bool-cases
        (ltb (compute_slot delay index w) w.wheel_size || index + 1 == w.num_wheels)) [
          | inl t ↦ rw t (
              push_entry-Adds index _ e w s (omega (arith, h))
                (slot_in (get_or w.current_slots index 0) _ w.wheel_size s.some_slots))
          | inr t ↦ absurd (ground (arith, h, t))
        ]
  insert_from-Adds (suc left) index delay e w s h =
      elim (Bool-cases
        (ltb (compute_slot delay index w) w.wheel_size || index + 1 == w.num_wheels)) [
          | inl t ↦ rw t (
              push_entry-Adds index _ e w s (omega (arith, h))
                (slot_in (get_or w.current_slots index 0) _ w.wheel_size s.some_slots))
          | inr t ↦ rw t (insert_from-Adds left (index + 1) delay e w s (omega (arith, h)))
        ]

  pub insert-Adds : (now : ℕ) (e : Entry) (w : Wheel) → IsShaped w → Adds f (f e) w (insert now e w)
  unfolding insert
  insert-Adds now e w s =
      subst (λ n. Adds f (f e) w (insert_from n 0 (e.expiry - now) e w)) all_wheels
        (insert_from-Adds (w.num_wheels - 1) 0 (e.expiry - now) e w s some_wheel)
    where
      some_wheel : 0 + suc (w.num_wheels - 1) ≡ w.num_wheels
      some_wheel = omega (arith, s.some_wheels)

      all_wheels : suc (w.num_wheels - 1) ≡ w.num_wheels
      all_wheels = omega (arith, s.some_wheels)

-- The moves of the wheel keep a weight that the cancelled entries do not have.
module _ (f : Entry → ℕ) (none_cancelled : (e : Entry) → e.cancelled ≡ true → f e ≡ 0) where
  insert_all-Adds :
      (now : ℕ) (es : Slot) (w : Wheel)
      → IsShaped w
      → Adds f (slot_weight f es) w (insert_all now es w)
  unfolding insert_all sum_by
  insert_all-Adds now [] w s = Adds-refl f w s
  insert_all-Adds now (e ∷ es) w s = Adds-trans f first (insert_all-Adds now es _ first.shaped)
    where
      choose : (b : Bool) → e.cancelled ≡ b → Adds f (f e) w (if b then w else insert now e w)
      choose true t = subst (λ n. Adds f n w w) (sym (none_cancelled e t)) (Adds-refl f w s)
      choose false t = insert-Adds f now e w s

      first : Adds f (f e) w (if e.cancelled then w else insert now e w)
      first = choose e.cancelled refl

  pub change_slot-IsShaped :
      (index slot : ℕ) (g : Slot → Slot) (w : Wheel)
      → IsShaped w
      → IsShaped (record w { wheels = modify index (modify slot g) w.wheels })
  change_slot-IsShaped index slot g w s = record {
    some_slots = s.some_slots;
    some_wheels = s.some_wheels;
    wheels = length-modify index _ w.wheels ∙ s.wheels;
    slots =
        All-modify (λ v. length v ≡ w.wheel_size) index _ w.wheels
          (λ v h. length-modify slot _ v ∙ h) s.slots;
  }

  cascade-Adds : (now index : ℕ) (w : Wheel) → IsShaped w → Adds f 0 w (cascade now index w)
  unfolding cascade sum_by
  cascade-Adds now index w s = elim (Bool-cases (leb w.num_wheels index)) [
    | inl t ↦ rw t (Adds-refl f w s)
    | inr t ↦ rw t (record {
      shaped = back.shaped;
      more = omega (
        arith,
        back.more,
        sum_by-modify_any (wheel_weight f) index (modify slot (λ es. [])) w.wheels [] refl refl,
        sum_by-modify_any (slot_weight f) slot (λ es. []) (get_or w.wheels index []) [] refl refl,
      );
      same_active = back.same_active;
      same_size = back.same_size;
      same_num = back.same_num;
    })
  ]
    where
      slot : ℕ
      slot = get_or w.current_slots index 0

      back :
          Adds f
            (slot_weight f (get_or (get_or w.wheels index []) (get_or w.current_slots index 0) []))
            (record w {
              wheels = modify index (modify (get_or w.current_slots index 0) (λ es. [])) w.wheels;
            })
            (insert_all now
              (get_or (get_or w.wheels index []) (get_or w.current_slots index 0) [])
              (record w {
                wheels = modify index (modify (get_or w.current_slots index 0) (λ es. [])) w.wheels;
              }))
      back = insert_all-Adds now _ _ (change_slot-IsShaped index _ _ w s)

  next_slot-Adds : (index : ℕ) (w : Wheel) → IsShaped w → Adds f 0 w (next_slot index w)
  unfolding next_slot
  next_slot-Adds index w s = record {
    shaped = record {
      some_slots = s.some_slots;
      some_wheels = s.some_wheels;
      wheels = s.wheels;
      slots = s.slots;
    };
    more = omega arith;
    same_active = refl;
    same_size = refl;
    same_num = refl;
  }

  cascade_from-Adds :
      (now left index : ℕ) (w : Wheel) → IsShaped w → Adds f 0 w (cascade_from now left index w)
  unfolding cascade_from
  cascade_from-Adds now zero index w s = Adds-refl f w s
  cascade_from-Adds now (suc left) index w s =
      elim (Bool-cases
        (get_or (next_slot index (cascade now index w)).current_slots index 0 == 0)) [
          | inl t ↦
              rw t (Adds-trans f moved (cascade_from-Adds now left (index + 1) _ moved.shaped))
          | inr t ↦ rw t moved
        ]
    where
      moved : Adds f 0 w (next_slot index (cascade now index w))
      moved =
          Adds-trans f (cascade-Adds now index w s)
            (next_slot-Adds index _ ((cascade-Adds now index w s).shaped))

  advance_one-Adds : (now : ℕ) (w : Wheel) → IsShaped w → Adds f 0 w (advance_one now w)
  unfolding advance_one
  advance_one-Adds now w s = elim (Bool-cases (get_or (next_slot 0 w).current_slots 0 0 == 0)) [
    | inl t ↦ rw t (Adds-trans f moved (cascade_from-Adds now _ 1 _ moved.shaped))
    | inr t ↦ rw t moved
  ]
    where
      moved : Adds f 0 w (next_slot 0 w)
      moved = next_slot-Adds 0 w s

  advance_ticks-Adds : (now n : ℕ) (w : Wheel) → IsShaped w → Adds f 0 w (advance_ticks now n w)
  unfolding advance_ticks
  advance_ticks-Adds now zero w s = Adds-refl f w s
  advance_ticks-Adds now (suc n) w s =
      Adds-trans f (advance_one-Adds now w s)
        (advance_ticks-Adds now n _ ((advance_one-Adds now w s).shaped))

  pub advance-Adds : (now elapsed : ℕ) (w : Wheel) → IsShaped w → Adds f 0 w (advance now elapsed w)
  unfolding advance
  advance-Adds now elapsed w s = advance_ticks-Adds now (elapsed / w.tick_duration) w s
