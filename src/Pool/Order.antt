-- ===== src/Pool/Order.antt =====
-- The order in which the pool of src/enhanced_thread_pool.cpp hands out its entries.
use pman.Common.{ℕ, ◌<◌, ◌≡◌, ◌⊎◌, true, false, List, [], ◌∷◌, All}
use pman.Common.Int.{ltb_ℤ, eqb_ℤ}
use pman.Pool.{Entry, Pool}

-- `a` has the smaller priority number, or the same and was submitted earlier.
abbrev pub Precedes : Entry → Entry → Type 0
Precedes a b =
    (ltb_ℤ a.priority b.priority ≡ true)
    ⊎ ((eqb_ℤ a.priority b.priority ≡ true) × (a.sequence_number < b.sequence_number))

abbrev pub Sorted : List Entry → Type 0
Sorted [] = Unit {0}
Sorted (e ∷ es) = All (Precedes e) es × Sorted es

abbrev Earlier : ℕ → List Entry → Type 0
Earlier n es = All (λ (x : Entry). x.sequence_number < n) es

abbrev Ordered : Pool → Type 0
Ordered p = Sorted p.queue × Earlier p.sequence_counter p.queue

-- `a` has another priority than `b`, or was submitted before it.
abbrev pub IsInTurn : Entry → Entry → Type 0
IsInTurn a b = (eqb_ℤ a.priority b.priority ≡ false) ⊎ (a.sequence_number < b.sequence_number)
