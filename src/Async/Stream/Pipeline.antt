-- ===== src/Async/Stream/Pipeline.antt =====
-- Combinators of include/pman/async/stream.hpp, one drawing from the other, and what is collected.
use pman.Common.{
  ℕ, zero, suc, ◌+◌, ◌-◌, ◌≤◌, ◌<◌, ◌≡◌, refl, subst, ap, ◌∙◌, Bool, List, [], ◌∷◌, ◌++◌, map, some,
  length, length-append, arith,
}
use pman.Async.Stream.{
  Next, VectorStream, from_vector, vector_next, map_next, filter_next, take_of, take_next,
  SkipStream, skip_of, skip_next, TakeWhileStream, take_while_of, take_while_next, chain_of,
  chain_next, collect, count,
}
use pman.Async.Stream.Sequence.{
  Gives, take, drop, filter, take_while, vector_next-Gives, map_next-Gives, take_next-Gives,
  filter_found-Gives, take_while-Gives, skip_left-Gives, collect-Gives, count-Gives,
  chain_found-Gives,
}

module _ {ℓ} {A : Type ℓ} where
  length-filter : (pred : A → Bool) (xs : List A) → length (filter pred xs) ≤ length xs
  length-filter pred [] = omega arith
  length-filter pred (x ∷ xs) = let ih = length-filter pred xs in ground (arith, ih)

  length-take : (n : ℕ) (xs : List A) → length (take n xs) ≤ length xs
  length-take zero xs = omega arith
  length-take (suc n) [] = omega arith
  length-take (suc n) (x ∷ xs) = omega (arith, length-take n xs)

  length-drop : (n : ℕ) (xs : List A) → length (drop n xs) ≤ length xs
  length-drop zero xs = omega arith
  length-drop (suc n) [] = omega arith
  length-drop (suc n) (x ∷ xs) = omega (arith, length-drop n xs)

  length-take_while : (pred : A → Bool) (xs : List A) → length (take_while pred xs) ≤ length xs
  length-take_while pred [] = omega arith
  length-take_while pred (x ∷ xs) = let ih = length-take_while pred xs in ground (arith, ih)

length-map {ℓ κ} :
    {A : Type ℓ} {U : Type κ} (f : A → U) (xs : List A) → length (map f xs) ≡ length xs
length-map f [] = refl
length-map f (x ∷ xs) = omega (arith, length-map f xs)

-- `take` of `filter` of `map` of a stream of a vector, collected, is what these functions make of the list
-- of its values; one more round than there are values is enough for each loop.
pub take-collect {ℓ κ} :
    {A : Type ℓ} {U : Type κ} (func : A → U) (pred : U → Bool) (n fuel : ℕ) (xs : List A)
    → length xs < fuel
    → collect fuel
        (take_next (filter_next fuel pred (map_next func vector_next)))
        (take_of n (from_vector xs))
      ≡ some (take n (filter pred (map func xs)))
unfolding map_next
take-collect func pred n fuel xs l =
    let s = from_vector xs in
    let source = map_next func vector_next in
    let mapped_all =
      map_next-Gives func vector_next xs (vector_next s) (vector_next-Gives xs s refl) in
    let few : length (map func xs) < fuel = omega (arith, l, length-map func xs) in
    let filtered = filter_found-Gives source pred fuel fuel (map func xs) s few few mapped_all in
    let next = filter_next fuel pred source in
    let taken =
      take_next-Gives next n (filter pred (map func xs)) (take_of n s) (omega arith) filtered in
    collect-Gives (take_next next) fuel (take n (filter pred (map func xs))) (take_of n s)
      (omega
        (arith, few, length-filter pred (map func xs), length-take n (filter pred (map func xs))))
      taken

-- `chain` of `skip` of one vector and `takeWhile` of another gives the first list without its first `n`
-- values, and then the second as far as the predicate holds; `count` counts them.
pub chain-count {ℓ} :
    {A : Type ℓ} (pred : A → Bool) (n fuel : ℕ) (xs ys : List A)
    → length xs + length ys < fuel
    → (collect fuel
          (chain_next (skip_next vector_next) (take_while_next pred vector_next))
          (chain_of (skip_of n (from_vector xs)) (take_while_of (from_vector ys)))
        ≡ some (drop n xs ++ take_while pred ys))
      × (count fuel
            (chain_next (skip_next vector_next) (take_while_next pred vector_next))
            (chain_of (skip_of n (from_vector xs)) (take_while_of (from_vector ys)))
          ≡ some (length (drop n xs) + length (take_while pred ys)))
unfolding chain_next skip_next take_while_next
chain-count {A} pred n fuel xs ys l =
    let next : Next A (SkipStream (VectorStream A)) = skip_next vector_next in
    let next' : Next A (TakeWhileStream (VectorStream A)) = take_while_next pred vector_next in
    let s = skip_of n (from_vector xs) in
    let t = take_while_of (from_vector ys) in
    let zs = drop n xs ++ take_while pred ys in
    let all_left : n - 0 ≡ n = omega arith in
    let first =
      subst (λ k. Gives next (drop k xs) (next s)) all_left
        (skip_left-Gives vector_next (n - 0) xs s refl (vector_next-Gives xs s.source refl)) in
    let second =
      take_while-Gives vector_next pred ys (vector_next t.source)
        (vector_next-Gives ys t.source refl) in
    let both =
      chain_found-Gives next next' (drop n xs) (take_while pred ys) (next s) t first second in
    let e = length-append (drop n xs) (take_while pred ys) in
    let few : length zs < fuel = omega (arith, l, e, length-drop n xs, length-take_while pred ys) in
    (
      collect-Gives (chain_next next next') fuel zs (chain_of s t) few both,
      count-Gives (chain_next next next') fuel zs (chain_of s t) few both ∙ ap some e,
    )
