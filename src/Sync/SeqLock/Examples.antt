-- ===== src/Sync/SeqLock/Examples.antt =====
-- `SeqLock` of include/pman/seqlock.hpp at work.
use pman.Common.{ℕ, ◌≡◌, refl, List, [], ◌∷◌}
use pman.Sync.SeqLock.{
  outside, returned, start, Event, lock, read, write, unlock, go, copy_found, go_on, move,
  move_found, step, run,
}
use pman.Sync.SeqLock.Copies.{Among, run-returned}

methods : Unit {0}
unfolding copy_found go_on move move_found step run
methods = tt

-- The reader has one old word when the writer begins: it starts again, and copies both new words.
abbrev crossed : List (Event × ℕ)
crossed =
    (read, 1)
    ∷ (go, 1)
    ∷ (go, 1)
    ∷ (lock, 0)
    ∷ (go, 0)
    ∷ (write 0 30, 0)
    ∷ (write 1 40, 0)
    ∷ (unlock, 0)
    ∷ (go, 0)
    ∷ (go, 1)
    ∷ (go, 1)
    ∷ (go, 1)
    ∷ (go, 1)
    ∷ (go, 1)
    ∷ (go, 1)
    ∷ []

retried : (run crossed (start (10 ∷ 20 ∷ []) 2)).threads ≡ outside ∷ returned (30 ∷ 40 ∷ []) ∷ []
unfolding methods
retried = refl

run-returned_example : Among (30 ∷ 40 ∷ []) (run crossed (start (10 ∷ 20 ∷ []) 2)).published
unfolding methods
run-returned_example = run-returned (10 ∷ 20 ∷ []) 2 crossed 1 (30 ∷ 40 ∷ []) refl
