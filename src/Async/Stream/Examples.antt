-- ===== src/Async/Stream/Examples.antt =====
-- Streams of include/pman/async/stream.hpp at work.
use pman.Common.{ℕ, ◌*◌, ◌≡◌, refl, List, [], ◌∷◌, ltb, some, none, arith}
use pman.Async.Stream.{
  vector_next, map_next, filter_next, take_next, take_of, from_vector, collect, at, collect_found,
}
use pman.Async.Stream.Pipeline.{take-collect}

abbrev numbers : List ℕ
numbers = 3 ∷ 8 ∷ 6 ∷ 1 ∷ 9 ∷ []

-- The first two doubles above ten.
take-collect_example :
    collect 6
      (take_next (filter_next 6 (λ (x : ℕ). ltb 10 x) (map_next (λ (x : ℕ). x * 2) vector_next)))
      (take_of 2 (from_vector numbers))
    ≡ some (16 ∷ 12 ∷ [])
take-collect_example =
    take-collect (λ (x : ℕ). x * 2) (λ (x : ℕ). ltb 10 x) 2 6 numbers (omega arith)

-- Too little fuel is told apart.
no_fuel : collect 2 vector_next (from_vector numbers) ≡ none
unfolding collect collect_found vector_next at
no_fuel = refl
