-- ===== src/TimerWheel.antt =====
-- src/timer_wheel.cpp: the hierarchical timer wheel, without its thread and its timerfd. Times are
-- nanoseconds of the steady clock. The readings of the clock that one call makes are taken as one,
-- `now`, but for the later one after the callbacks; a callback does not call the wheel.
pub mod Shape
pub mod Cancel
pub mod Timers
pub mod Laws
pub mod Next
mod Examples
use pman.Common.{
  ℕ, zero, suc, ◌+◌, ◌-◌, ◌*◌, ◌/◌, ◌%◌, ◌^◌, ◌≤◌, Bool, true, false, List, [], ◌∷◌, ◌++◌, Option,
  none, some, if◌then◌else◌, ltb, leb, ◌==◌, ◌||◌, ◌&&◌, not, length, min, get_or, modify,
  replicate,
}

-- `TimerEntry`, its callback named by the id. `period` is 0 for a timer that fires once.
pub record Entry : Type 0 where
  pub id : ℕ
  pub expiry : ℕ
  pub period : ℕ
  pub cancelled : Bool

abbrev pub Slot : Type 0
Slot = List Entry

-- `TimerWheel` with its `Config`.
pub record Wheel : Type 0 where
  pub tick_duration : ℕ
  pub wheel_size : ℕ
  pub num_wheels : ℕ
  pub wheels : List (List Slot)
  pub current_slots : List ℕ
  pub next_id : ℕ
  pub active_count : ℕ

-- The constructor; `none` is `std::invalid_argument`.
pub new : ℕ → ℕ → ℕ → Option Wheel
new tick size num =
    if size == 0 || num == 0
    then none
    else some (record {
      tick_duration = tick;
      wheel_size = size;
      num_wheels = num;
      wheels = replicate num (replicate size []);
      current_slots = replicate num 0;
      next_id = 1;
      active_count = 0;
    })

-- `computeSlot`
pub compute_slot : ℕ → ℕ → Wheel → ℕ
compute_slot delay index w = delay / (w.tick_duration * w.wheel_size ^ index)

-- An entry is added at the end of a slot.
push_entry : ℕ → ℕ → Entry → Wheel → Wheel
push_entry index slot e w = record w {
  wheels = modify index (modify slot (λ es. es ++ e ∷ [])) w.wheels;
}

-- The loop of `insert`, with the number of wheels left from the wheel `index` on.
pub insert_from : ℕ → ℕ → ℕ → Entry → Wheel → Wheel
insert_from zero index delay e w = w
insert_from (suc left) index delay e w =
    let slot = compute_slot delay index w in
    let rest = insert_from left (index + 1) delay e w in
    if ltb slot w.wheel_size || index + 1 == w.num_wheels
    then push_entry index
        ((get_or w.current_slots index 0 + min slot (w.wheel_size - 1)) % w.wheel_size) e w
    else rest

-- `insert`
pub insert : ℕ → Entry → Wheel → Wheel
unfolding insert_from push_entry compute_slot
insert now e w = insert_from w.num_wheels 0 (e.expiry - now) e w

-- `schedule` and `schedulePeriodic`: the id of the new timer and the wheel.
pub schedule : ℕ → ℕ → Wheel → ℕ × Wheel
schedule now delay w =
    let e : Entry = record {
      id = w.next_id;
      expiry = now + delay;
      period = 0;
      cancelled = false;
    } in
    let w' = insert now e (record w { next_id = w.next_id + 1 }) in
    (w.next_id, record w' { active_count = w'.active_count + 1 })

-- `none` is `std::invalid_argument`.
pub schedule_periodic : ℕ → ℕ → Wheel → Option (ℕ × Wheel)
schedule_periodic now period w =
    let e : Entry = record {
      id = w.next_id;
      expiry = now + period;
      period = period;
      cancelled = false;
    } in
    let w' = insert now e (record w { next_id = w.next_id + 1 }) in
    if period == 0 then none else some (w.next_id, record w' { active_count = w'.active_count + 1 })

-- The loops of `cancel`: the first entry with the id that is not cancelled gets its flag set.
cancel_slot : ℕ → Slot → Bool × Slot
cancel_slot id [] = (false, [])
cancel_slot id (e ∷ es) =
    let rest = cancel_slot id es in
    if e.id == id && not e.cancelled
    then (true, record e { cancelled = true } ∷ es)
    else (rest.0, e ∷ rest.1)

cancel_wheel : ℕ → List Slot → Bool × List Slot
unfolding cancel_slot
cancel_wheel id [] = (false, [])
cancel_wheel id (s ∷ ss) =
    let here = cancel_slot id s in
    let rest = cancel_wheel id ss in if here.0 then (true, here.1 ∷ ss) else (rest.0, s ∷ rest.1)

cancel_wheels : ℕ → List (List Slot) → Bool × List (List Slot)
unfolding cancel_wheel
cancel_wheels id [] = (false, [])
cancel_wheels id (v ∷ vs) =
    let here = cancel_wheel id v in
    let rest = cancel_wheels id vs in if here.0 then (true, here.1 ∷ vs) else (rest.0, v ∷ rest.1)

-- `cancel`
pub cancel : ℕ → Wheel → Bool × Wheel
unfolding cancel_wheels
cancel id w =
    let found = cancel_wheels id w.wheels in
    if found.0
    then (true, record w { wheels = found.1; active_count = w.active_count - 1 })
    else (false, w)

-- The entries of a slot that are not cancelled go back in.
insert_all : ℕ → Slot → Wheel → Wheel
insert_all now [] w = w
insert_all now (e ∷ es) w = insert_all now es (if e.cancelled then w else insert now e w)

-- `cascade`
pub cascade : ℕ → ℕ → Wheel → Wheel
unfolding insert_all
cascade now index w =
    let slot = get_or w.current_slots index 0 in
    let entries = get_or (get_or w.wheels index []) slot [] in
    if leb w.num_wheels index
    then w
    else insert_all now entries
        (record w { wheels = modify index (modify slot (λ es. [])) w.wheels })

-- One wheel moves to its next slot.
next_slot : ℕ → Wheel → Wheel
next_slot index w = record w {
  current_slots = modify index (λ c. (c + 1) % w.wheel_size) w.current_slots;
}

-- The loop of `advance` over the upper wheels, with the number of wheels left.
pub cascade_from : ℕ → ℕ → ℕ → Wheel → Wheel
cascade_from now zero index w = w
cascade_from now (suc left) index w =
    let w' = next_slot index (cascade now index w) in
    let rest = cascade_from now left (index + 1) w' in
    if get_or w'.current_slots index 0 == 0 then rest else w'

-- The body of the loop of `advance`.
pub advance_one : ℕ → Wheel → Wheel
unfolding next_slot cascade_from
advance_one now w =
    let w' = next_slot 0 w in
    if get_or w'.current_slots 0 0 == 0 then cascade_from now (w.num_wheels - 1) 1 w' else w'

pub advance_ticks : ℕ → ℕ → Wheel → Wheel
advance_ticks now zero w = w
advance_ticks now (suc n) w = advance_ticks now n (advance_one now w)

-- `advance`, and `tick`, which advances by one tick.
pub advance : ℕ → ℕ → Wheel → Wheel
unfolding advance_ticks
advance now elapsed w = advance_ticks now (elapsed / w.tick_duration) w

pub tick : ℕ → Wheel → Wheel
unfolding advance
tick now w = advance now w.tick_duration w

-- What `processExpired` takes out of the current slot, and what it leaves there.
pub expired_of : ℕ → Slot → Slot
expired_of now [] = []
expired_of now (e ∷ es) =
    if not e.cancelled && leb e.expiry now then e ∷ expired_of now es else expired_of now es

pub pending_of : ℕ → Slot → Slot
pending_of now [] = []
pending_of now (e ∷ es) =
    if not e.cancelled && not (leb e.expiry now) then e ∷ pending_of now es else pending_of now es

-- After the callbacks, at the reading `later`: a periodic timer goes back in.
pub finish_one : ℕ → Entry → Wheel → Wheel
finish_one later e w =
    if ltb 0 e.period
    then insert later (record e { expiry = later + e.period }) w
    else record w { active_count = w.active_count - 1 }

pub finish_all : ℕ → Slot → Wheel → Wheel
unfolding finish_one
finish_all later [] w = w
finish_all later (e ∷ es) w = finish_all later es (finish_one later e w)

-- `processExpired`: the timers that fire, and the wheel.
pub process_expired : ℕ → ℕ → Wheel → Slot × Wheel
unfolding expired_of pending_of finish_all
process_expired now later w =
    let slot = get_or w.current_slots 0 0 in
    let entries = get_or (get_or w.wheels 0 []) slot [] in
    (
      expired_of now entries,
      finish_all later (expired_of now entries)
          (record w { wheels = modify 0 (modify slot (pending_of now)) w.wheels }),
    )

-- `timeUntilNextExpiry`: its loops hold the earliest time so far, a day from now at first.
pub earliest_slot : ℕ → Slot → ℕ
earliest_slot sofar [] = sofar
earliest_slot sofar (e ∷ es) =
    earliest_slot (if not e.cancelled && ltb e.expiry sofar then e.expiry else sofar) es

pub earliest_wheel : ℕ → List Slot → ℕ
unfolding earliest_slot
earliest_wheel sofar [] = sofar
earliest_wheel sofar (s ∷ ss) = earliest_wheel (earliest_slot sofar s) ss

pub earliest_wheels : ℕ → List (List Slot) → ℕ
unfolding earliest_wheel
earliest_wheels sofar [] = sofar
earliest_wheels sofar (v ∷ vs) = earliest_wheels (earliest_wheel sofar v) vs

abbrev pub day : ℕ
day = 86400 * 10 ^ 9

pub time_until_next_expiry : ℕ → Wheel → ℕ
unfolding earliest_wheels
time_until_next_expiry now w =
    let earliest = earliest_wheels (now + day) w.wheels in
    if leb earliest now then 0 else earliest - now

-- `pendingExpirations`
pub pending_slot : ℕ → Slot → ℕ
pending_slot now [] = 0
pending_slot now (e ∷ es) =
    (if not e.cancelled && leb e.expiry now then 1 else 0) + pending_slot now es

pub pending_wheel : ℕ → List Slot → ℕ
unfolding pending_slot
pending_wheel now [] = 0
pending_wheel now (s ∷ ss) = pending_slot now s + pending_wheel now ss

pub pending_wheels : ℕ → List (List Slot) → ℕ
unfolding pending_wheel
pending_wheels now [] = 0
pending_wheels now (v ∷ vs) = pending_wheel now v + pending_wheels now vs

pub pending_expirations : ℕ → Wheel → ℕ
unfolding pending_wheels
pending_expirations now w = pending_wheels now w.wheels
