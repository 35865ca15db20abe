-- ===== src/Sync/RwSpinLock.antt =====
-- `RwSpinLock` of include/pman/rw_spinlock.hpp.
pub mod Exclusion
mod Examples
use pman.Common.{ℕ, ◌+◌, Bool, List, [], ◌∷◌, Option, none, some, if◌then◌else◌, replicate}
use pman.Common.Int.{ℤ, pos, negsuc, ltb_ℤ, eqb_ℤ, ◌-ℤ◌, ◌+ℤ◌}
use pman.Sync.Threads.{get_elem?, set}

-- Where a thread stands: outside; in `lock_shared` before the load, and before the compare-exchange with
-- what it read; in `lock` before the compare-exchange; with the lock shared, or for itself.
pub data Pc : Type 0 where
  outside : Pc
  loading : Pc
  swapping : ℤ → Pc
  claiming : Pc
  reader : Pc
  writer : Pc

pub record RwSpinLock : Type 0 where
  pub state : ℤ
  pub threads : List Pc

abbrev pub new_lock : ℕ → RwSpinLock
new_lock n = record { state = pos 0; threads = replicate n outside }

-- The calls, a step of a loop, and a compare-exchange that fails though the word is the expected one. A
-- thread unlocks what it has.
pub data Event : Type 0 where
  lock_shared : Event
  unlock_shared : Event
  lock : Event
  unlock : Event
  go : Event
  fail : Event

pub go_on : ℤ → Pc → ℤ × Pc
go_on state loading = (state, if ltb_ℤ state (pos 0) then loading else swapping state)
go_on state (swapping expected) =
    if eqb_ℤ state expected then (expected +ℤ pos 1, reader) else (state, loading)
go_on state claiming = if eqb_ℤ state (pos 0) then (negsuc 0, writer) else (state, claiming)
go_on state p = (state, p)

pub move : Event → ℤ → Pc → ℤ × Pc
unfolding go_on
move go state p = go_on state p
move lock_shared state outside = (state, loading)
move lock state outside = (state, claiming)
move unlock_shared state reader = (state -ℤ pos 1, outside)
move unlock state writer = (pos 0, outside)
move fail state (swapping expected) = (state, loading)
move e state p = (state, p)

pub move_found : Option Pc → Event → ℕ → RwSpinLock → RwSpinLock
unfolding move
move_found none e i l = l
move_found (some p) e i l =
    let r = move e l.state p in record { state = r.0; threads = set i r.1 l.threads }

pub run : List (Event × ℕ) → RwSpinLock → RwSpinLock
unfolding move_found
run [] l = l
run ((e, i) ∷ xs) l = run xs (move_found (get_elem? l.threads i) e i l)
