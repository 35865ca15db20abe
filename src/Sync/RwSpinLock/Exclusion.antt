-- ===== src/Sync/RwSpinLock/Exclusion.antt =====
-- Exclusion of the readers and the writer of a `RwSpinLock`, include/pman/rw_spinlock.hpp.
use pman.Common.{
  ℕ, ◌+◌, ◌≤◌, ◌≡◌, ◌⊎◌, refl, List, [], ◌∷◌, Option, none, some, sum_by, sum_by-replicate, All,
  All-replicate, arith,
}
use pman.Common.Int.{one_part, ℤ, pos, negsuc, ltb_ℤ, eqb_ℤ, ◌-ℤ◌, ◌+ℤ◌, pos_part, neg_part}
use pman.Sync.Threads.{get_elem?, sum_by-set, sum_by-le, All-set, All-get_elem?, either}
use pman.Sync.RwSpinLock.{
  Pc, outside, loading, swapping, claiming, reader, writer, RwSpinLock, new_lock, Event,
  lock_shared, unlock_shared, lock, unlock, go, fail, go_on, move, move_found, run,
}

abbrev pub reads : Pc → ℕ
reads reader = 1
reads p = 0

abbrev pub writes : Pc → ℕ
writes writer = 1
writes p = 0

-- A reader expects a word without a writer.
abbrev Sound : Pc → Type 0
Sound (swapping expected) = neg_part expected ≡ 0
Sound p = Unit

-- The parts of the word follow the reader and the writer.
abbrev Moves : ℤ → Pc → ℤ × Pc → Type 0
Moves z p r =
    Sound r.1
    × (pos_part r.0 + reads p ≡ pos_part z + reads r.1)
    × (neg_part r.0 + writes p ≡ neg_part z + writes r.1)
    × (neg_part r.0 ≤ 1)

go_on-Moves : (z : ℤ) (p : Pc) → neg_part z ≤ 1 → Sound p → Moves z p (go_on z p)
unfolding go_on ◌+ℤ◌
go_on-Moves z loading h sound =
    either (λ p. Moves z loading (z, p)) (ltb_ℤ z (pos 0)) loading (swapping z)
      (λ b. (tt, refl, refl, h)) (λ b. (ground (arith, b, one_part z), refl, refl, h))
go_on-Moves z (swapping expected) h sound =
    either (Moves z (swapping expected)) (eqb_ℤ z expected) (expected +ℤ pos 1, reader) (z, loading)
      (λ b. (
        tt,
        ground (arith, b, sound, one_part z),
        ground (arith, b, sound, one_part z),
        ground (arith, sound),
      ))
      (λ b. (tt, refl, refl, h))
go_on-Moves z claiming h sound =
    either (Moves z claiming) (eqb_ℤ z (pos 0)) (negsuc 0, writer) (z, claiming)
      (λ b. (tt, ground (arith, b, one_part z), ground (arith, b, one_part z), omega arith))
      (λ b. (tt, refl, refl, h))
go_on-Moves z p h sound = (sound, refl, refl, h)

move-Moves :
    (e : Event) (z : ℤ) (p : Pc)
    → neg_part z ≤ 1
    → reads p ≤ pos_part z
    → writes p ≤ neg_part z
    → Sound p
    → Moves z p (move e z p)
unfolding move ◌-ℤ◌
move-Moves go z p h r w sound = go_on-Moves z p h sound
move-Moves lock_shared z outside h r w sound = (tt, refl, refl, h)
move-Moves lock z outside h r w sound = (tt, refl, refl, h)
move-Moves unlock_shared z reader h r w sound = (
  tt,
  ground (arith, r, one_part z),
  ground (arith, r, one_part z),
  ground (arith, r, one_part z),
)
move-Moves unlock z writer h r w sound =
    (tt, ground (arith, w, one_part z), ground (arith, h, w), omega arith)
move-Moves fail z (swapping expected) h r w sound = (tt, refl, refl, h)
move-Moves e z p h r w sound = (sound, refl, refl, h)

record Inv (l : RwSpinLock) : Type 0 where
  sound : All Sound l.threads
  readers : pos_part l.state ≡ sum_by reads l.threads
  writers : neg_part l.state ≡ sum_by writes l.threads
  one : neg_part l.state ≤ 1

move_found-Inv :
    (o : Option Pc) (e : Event) (i : ℕ) (l : RwSpinLock)
    → get_elem? l.threads i ≡ o
    → Inv l
    → Inv (move_found o e i l)
unfolding move_found
move_found-Inv none e i l h inv = inv
move_found-Inv (some p) e i l h inv =
    let q = (move e l.state p).1 in
    let m =
      move-Moves e l.state p inv.one (omega (arith, inv.readers, sum_by-le reads i p l.threads h))
        (omega (arith, inv.writers, sum_by-le writes i p l.threads h))
        (All-get_elem? Sound i p l.threads h inv.sound) in
    record {
      sound = All-set Sound i q l.threads m.0 inv.sound;
      readers = omega (arith, inv.readers, m.1, sum_by-set reads i p q l.threads h);
      writers = omega (arith, inv.writers, m.2, sum_by-set writes i p q l.threads h);
      one = m.3;
    }

run-Inv : (xs : List (Event × ℕ)) (l : RwSpinLock) → Inv l → Inv (run xs l)
unfolding run
run-Inv [] l inv = inv
run-Inv ((e, i) ∷ xs) l inv =
    run-Inv xs (move_found (get_elem? l.threads i) e i l)
      (move_found-Inv (get_elem? l.threads i) e i l refl inv)

-- However the threads interleave, there is one writer at most, and none while there is a reader.
pub run-one_writer :
    (n : ℕ) (xs : List (Event × ℕ))
    → (sum_by writes (run xs (new_lock n)).threads ≤ 1)
      × (sum_by writes (run xs (new_lock n)).threads ≡ 0
          ⊎ sum_by reads (run xs (new_lock n)).threads ≡ 0)
run-one_writer n xs =
    let inv = run-Inv xs (new_lock n) (record {
      sound = All-replicate Sound n outside tt;
      readers = omega (arith, sum_by-replicate reads n outside refl);
      writers = omega (arith, sum_by-replicate writes n outside refl);
      one = omega arith;
    }) in
    (
      omega (arith, inv.writers, inv.one),
      ground (arith, one_part (run xs (new_lock n)).state, inv.readers, inv.writers),
    )
