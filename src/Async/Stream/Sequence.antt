-- ===== src/Async/Stream/Sequence.antt =====
-- The streams of include/pman/async/stream.hpp are the sequences that they yield.
use pman.Common.{
  ℕ, zero, suc, ◌+◌, ◌-◌, ◌≤◌, ◌<◌, ◌≡◌, refl, subst, sym, ap, Bool, true, false, List, [], ◌∷◌,
  ◌++◌, map, some, if◌then◌else◌, ltb, leb, length, Bool-cases, inl, inr, arith,
}
use pman.Async.Stream.{
  Pull, item, exhausted, Next, VectorStream, at, vector_next, mapped, map_next, filter_found,
  filter_next, TakeStream, take_next, SkipStream, skip_found, skip_left, skip_next,
  take_while_found, take_while_next, chain_of, chain_second, chain_found, chain_next, collect_found,
  collect, count_found, count,
}

-- What `next` has returned is the first of these values, and the stream gives the others and is
-- exhausted then.
abbrev pub Gives {ℓ κ} : {A : Type ℓ} {S : Type κ} → Next A S → List A → Pull A × S → Type ℓ
Gives next [] r = r.0 ≡ exhausted
Gives next (a ∷ xs) r = (r.0 ≡ item a) × Gives next xs (next r.1)

-- The functions on lists that the combinators stand for.
module _ {ℓ} {A : Type ℓ} where
  abbrev pub take : ℕ → List A → List A
  take zero xs = []
  take (suc n) [] = []
  take (suc n) (x ∷ xs) = x ∷ take n xs

  abbrev pub drop : ℕ → List A → List A
  drop zero xs = xs
  drop (suc n) [] = []
  drop (suc n) (x ∷ xs) = drop n xs

  abbrev pub filter : (A → Bool) → List A → List A
  filter pred [] = []
  filter pred (x ∷ xs) = let rest = filter pred xs in if pred x then x ∷ rest else rest

  abbrev pub take_while : (A → Bool) → List A → List A
  take_while pred [] = []
  take_while pred (x ∷ xs) = let rest = take_while pred xs in if pred x then x ∷ rest else []

-- A vector is at an index: at its end, or before a value.
at-end {ℓ} : {A : Type ℓ} (values : List A) (i : ℕ) → drop i values ≡ [] → length values ≤ i
at-end [] i e = omega arith
at-end (v ∷ values) zero e = absurd (omega (arith, ap length e))
at-end (v ∷ values) (suc i) e = omega (arith, at-end values i e)

at-value {ℓ} :
    {A : Type ℓ} (values : List A) (i : ℕ) (x : A) (xs : List A)
    → drop i values ≡ x ∷ xs
    → (i < length values) × (at values i ≡ item x) × (drop (suc i) values ≡ xs)
unfolding at
at-value [] zero x xs e = absurd (omega (arith, ap length e))
at-value [] (suc i) x xs e = absurd (omega (arith, ap length e))
at-value (v ∷ values) zero x xs e = (omega arith, cc e, cc e)
at-value (v ∷ values) (suc i) x xs e =
    let ih = at-value values i x xs e in (omega (arith, ih.0), ih.1, ih.2)

pub vector_next-Gives {ℓ} :
    {A : Type ℓ} (xs : List A) (s : VectorStream A)
    → drop s.index s.values ≡ xs
    → Gives vector_next xs (vector_next s)
unfolding vector_next
vector_next-Gives [] s e =
    let t : ltb s.index (length s.values) ≡ false = ground (arith, at-end s.values s.index e) in
    rw t refl
vector_next-Gives (x ∷ xs) s e =
    let v = at-value s.values s.index x xs e in
    let one_more : suc s.index ≡ s.index + 1 = omega arith in
    let t : ltb s.index (length s.values) ≡ true = ground (arith, v.0) in
    rw t (
      v.1,
      vector_next-Gives xs (record s { index = s.index + 1 })
          (subst (λ i. drop i s.values ≡ xs) one_more v.2),
    )

pub map_next-Gives {ℓ κ μ} :
    {A : Type ℓ} {U : Type κ} {S : Type μ} (func : A → U) (next : Next A S) (xs : List A)
    (r : Pull A × S)
    → Gives next xs r
    → Gives (map_next func next) (map func xs) (mapped func r.0, r.1)
unfolding map_next mapped
map_next-Gives func next [] r h = ap (mapped func) h
map_next-Gives func next (x ∷ xs) r (h, hs) =
    (ap (mapped func) h, map_next-Gives func next xs (next r.1) hs)

module _ {ℓ κ} {A : Type ℓ} {S : Type κ} (next : Next A S) where
  pub take_next-Gives :
      (k : ℕ) (xs : List A) (s : TakeStream S)
      → s.n ≡ s.count + k
      → Gives next xs (next s.source)
      → Gives (take_next next) (take k xs) (take_next next s)
  unfolding take_next
  take_next-Gives zero xs s e h = let t : leb s.n s.count ≡ true = ground (arith, e) in rw t refl
  take_next-Gives (suc k) [] s e h = let t : leb s.n s.count ≡ false = ground (arith, e) in rw t h
  take_next-Gives (suc k) (x ∷ xs) s e (h, hs) =
      let t : leb s.n s.count ≡ false = ground (arith, e) in
      let s' : TakeStream S = record s { source = (next s.source).1; count = s.count + 1 } in
      let stepped : take_next next s ≡ ((next s.source).0, s') = rw t refl in
      subst (Gives (take_next next) (x ∷ take k xs)) (sym stepped)
        (h, take_next-Gives k xs s' (omega (arith, e)) hs)

  pub filter_found-Gives :
      (pred : A → Bool) (fuel k : ℕ) (xs : List A) (s : S)
      → length xs < k
      → length xs < fuel
      → Gives next xs (next s)
      → Gives (filter_next fuel pred next) (filter pred xs) (filter_next k pred next s)
  unfolding filter_next filter_found
  filter_found-Gives pred fuel zero xs s l l' h = absurd (omega (arith, l))
  filter_found-Gives pred fuel (suc k) [] s l l' h = rw h refl
  filter_found-Gives pred fuel (suc k) (x ∷ xs) s l l' (h, hs) = elim (Bool-cases (pred x)) [
    | inl t ↦
        rw (h, t)
          (
            refl,
            filter_found-Gives pred fuel fuel xs (next s).1 (omega (arith, l')) (omega (arith, l'))
                hs,
          )
    | inr t ↦
        rw (h, t)
          (filter_found-Gives pred fuel k xs (next s).1 (omega (arith, l)) (omega (arith, l')) hs)
  ]

  pub take_while-Gives :
      (pred : A → Bool) (xs : List A) (r : Pull A × S)
      → Gives next xs r
      → Gives (take_while_next pred next) (take_while pred xs) (take_while_found pred r.0 r.1)
  unfolding take_while_next take_while_found
  take_while-Gives pred [] r h = rw h refl
  take_while-Gives pred (x ∷ xs) r (h, hs) = elim (Bool-cases (pred x)) [
    | inl t ↦ rw (h, t) (refl, take_while-Gives pred xs (next r.1) hs)
    | inr t ↦ rw (h, t) refl
  ]

  -- Nothing is left to skip.
  skipped-Gives :
      (xs : List A) (s : SkipStream S)
      → s.n - s.skipped ≡ 0
      → Gives next xs (next s.source)
      → Gives (skip_next next) xs ((next s.source).0, record s { source = (next s.source).1 })
  unfolding skip_next skip_left
  skipped-Gives [] s e h = h
  skipped-Gives (x ∷ xs) s e (h, hs) =
      let s' : SkipStream S = record s { source = (next s.source).1 } in
      let stepped : skip_next next s'
          ≡ ((next s'.source).0, record s' { source = (next s'.source).1 }) =
        rw e refl in
      (h, subst (Gives (skip_next next) xs) (sym stepped) (skipped-Gives xs s' e hs))

  pub skip_left-Gives :
      (k : ℕ) (xs : List A) (s : SkipStream S)
      → s.n - s.skipped ≡ k
      → Gives next xs (next s.source)
      → Gives (skip_next next) (drop k xs) (skip_left k next s)
  unfolding skip_left skip_found
  skip_left-Gives zero xs s e h = skipped-Gives xs s e h
  skip_left-Gives (suc k) [] s e h = rw h refl
  skip_left-Gives (suc k) (x ∷ xs) s e (h, hs) = rw h (
      skip_left-Gives k xs (record s { source = (next s.source).1; skipped = s.skipped + 1 })
        (omega (arith, e)) hs)

  pub collect-Gives :
      (fuel : ℕ) (xs : List A) (s : S)
      → length xs < fuel
      → Gives next xs (next s)
      → collect fuel next s ≡ some xs
  unfolding collect collect_found
  collect-Gives zero xs s l h = absurd (omega (arith, l))
  collect-Gives (suc n) [] s l h = rw h refl
  collect-Gives (suc n) (x ∷ xs) s l (h, hs) =
      rw (h, collect-Gives n xs (next s).1 (omega (arith, l)) hs) refl

  pub count-Gives :
      (fuel : ℕ) (xs : List A) (s : S)
      → length xs < fuel
      → Gives next xs (next s)
      → count fuel next s ≡ some (length xs)
  unfolding count count_found
  count-Gives zero xs s l h = absurd (omega (arith, l))
  count-Gives (suc n) [] s l h = rw h refl
  count-Gives (suc n) (x ∷ xs) s l (h, hs) =
      rw (h, count-Gives n xs (next s).1 (omega (arith, l)) hs) (ap some (omega arith))

module _ {ℓ κ μ} {A : Type ℓ} {S : Type κ} {T : Type μ} (next : Next A S) (next' : Next A T) where
  chain_second-Gives :
      (ys : List A) (first : S) (r : Pull A × T)
      → Gives next' ys r
      → Gives
          (chain_next next next')
          ys
          (r.0, record { first = first; second = r.1; on_second = true })
  unfolding chain_next chain_second
  chain_second-Gives [] first r h = h
  chain_second-Gives (y ∷ ys) first r (h, hs) = (h, chain_second-Gives ys first (next' r.1) hs)

  pub chain_found-Gives :
      (xs ys : List A) (r : Pull A × S) (second : T)
      → Gives next xs r
      → Gives next' ys (next' second)
      → Gives
          (chain_next next next')
          (xs ++ ys)
          (chain_found r.0 (chain_of r.1 second) (chain_second next'))
  unfolding chain_next chain_found chain_second
  chain_found-Gives [] ys r second h h' = rw h (chain_second-Gives ys r.1 (next' second) h')
  chain_found-Gives (x ∷ xs) ys r second (h, hs) h' =
      rw h (refl, chain_found-Gives xs ys (next r.1) second hs h')
