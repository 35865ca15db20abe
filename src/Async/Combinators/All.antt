-- ===== src/Async/Combinators/All.antt =====
-- What `all` of include/pman/async/combinators.hpp gives.
use pman.Common.{
  ℕ, zero, suc, ◌+◌, ◌<◌, ◌≡◌, refl, subst, sym, ap, ◌∙◌, Bool, true, false, List, [], ◌∷◌, Option,
  none, some, if◌then◌else◌, ◌==◌, ◌||◌, length, length-replicate, length-modify, modify, get_or,
  replicate, Bool-cases, Option-cases, ◌⊎◌, inl, inr, arith,
}
use pman.Async.Combinators.{
  Outcome, value, thrown, AllState, all_state, first_error, store, count_one, all_complete, all_run,
  all_result, all_resume, there,
}

abbrev pub is_in : ℕ → List ℕ → Bool
is_in i [] = false
is_in i (x ∷ xs) = x == i || is_in i xs

-- The values of a function up to a number.
abbrev pub tabulate {ℓ} : {A : Type ℓ} → ℕ → (ℕ → A) → List A
tabulate zero f = []
tabulate (suc n) f = f 0 ∷ tabulate n (λ i. f (suc i))

abbrev pub value_of {ℓ κ} : {A : Type ℓ} {E : Type κ} → Outcome A E → Option A
value_of (value a) = some a
value_of (thrown e) = none

eq-of_test : (i k : ℕ) → (i == k) ≡ true → i ≡ k
eq-of_test i k t = ground (arith, t)

get_or-modify_in {ℓ} :
    {A : Type ℓ} (i k : ℕ) (a : Option A) (xs : List (Option A))
    → k < length xs
    → get_or (modify i (λ x. a) xs) k none ≡ (if i == k then a else get_or xs k none)
get_or-modify_in i k a [] l = absurd (omega (arith, l))
get_or-modify_in zero zero a (x ∷ xs) l = refl
get_or-modify_in zero (suc k) a (x ∷ xs) l = ground arith
get_or-modify_in (suc i) zero a (x ∷ xs) l = ground arith
get_or-modify_in (suc i) (suc k) a (x ∷ xs) l =
    get_or-modify_in i k a xs (omega (arith, l)) ∙ ground arith

abbrev or_else {ℓ} : {E : Type ℓ} → Option E → Option E → Option E
or_else none o = o
or_else (some e) o = some e

eq-tabulate {ℓ} :
    {A : Type ℓ} (n : ℕ) (f : ℕ → Option A) (xs : List (Option A))
    → length xs ≡ n
    → ((i : ℕ) → i < n → get_or xs i none ≡ f i)
    → xs ≡ tabulate n f
eq-tabulate zero f [] l h = refl
eq-tabulate zero f (x ∷ xs) l h = absurd (omega (arith, l))
eq-tabulate (suc n) f [] l h = absurd (omega (arith, l))
eq-tabulate (suc n) f (x ∷ xs) l h = cc (
  h 0 (omega arith),
  eq-tabulate n (λ i. f (suc i)) xs (omega (arith, l)) (λ i k. h (suc i) (omega (arith, k))),
)

module _ {ℓ κ} {A : Type ℓ} {E : Type κ} where
  abbrev pub thrown_or : Outcome A E → Option E → Option E
  thrown_or (value a) rest = rest
  thrown_or (thrown e) rest = some e

  -- The first exception in the order of completion.
  abbrev pub first_thrown : (ℕ → Outcome A E) → List ℕ → Option E
  first_thrown outcome [] = none
  first_thrown outcome (i ∷ order) = thrown_or (outcome i) (first_thrown outcome order)

  module _ (i : ℕ) (s : AllState A E) where
    store-error : (o : Outcome A E) → (store i o s).error ≡ or_else s.error (thrown_or o none)
    unfolding store first_error
    store-error (value a) = elim (Option-cases s.error) [
      | inl e ↦ rw e refl
      | inr (e', e) ↦ rw e refl
    ]
    store-error (thrown e) = elim (Option-cases s.error) [
      | inl e ↦ rw e refl
      | inr (e', e) ↦ rw e refl
    ]

    store-completed :
        (o : Outcome A E)
        → ((store i o s).completed ≡ s.completed)
          × ((store i o s).total ≡ s.total)
          × ((store i o s).resumed ≡ s.resumed)
    unfolding store
    store-completed (value a) = (refl, refl, refl)
    store-completed (thrown e) = (refl, refl, refl)

  module _ (s : AllState A E) where
    count_one-same :
        ((count_one s).completed ≡ s.completed + 1)
        × ((count_one s).total ≡ s.total)
        × ((count_one s).error ≡ s.error)
        × ((count_one s).results ≡ s.results)
    unfolding count_one
    count_one-same = elim (Bool-cases (s.completed + 1 == s.total)) [
      | inl t ↦ rw t (refl, refl, refl, refl)
      | inr t ↦ rw t (refl, refl, refl, refl)
    ]

    count_one-resumed :
        (count_one s).resumed ≡ (if s.completed + 1 == s.total then s.resumed + 1 else s.resumed)
    unfolding count_one
    count_one-resumed = elim (Bool-cases (s.completed + 1 == s.total)) [
      | inl t ↦ rw t refl
      | inr t ↦ rw t refl
    ]

  or_else_assoc :
      (o : Option E) (c : Outcome A E) (rest : Option E)
      → or_else (or_else o (thrown_or c none)) rest ≡ or_else o (thrown_or c rest)
  or_else_assoc none (value a) rest = refl
  or_else_assoc none (thrown e) rest = refl
  or_else_assoc (some e) c rest = refl

  module _ (f : ℕ → Outcome A E) where
    all_run-error :
        (order : List ℕ) (s : AllState A E)
        → (all_run f order s).error ≡ or_else s.error (first_thrown f order)
    unfolding all_run all_complete
    all_run-error [] s = elim (Option-cases s.error) [ inl e ↦ rw e refl | inr (e', e) ↦ rw e refl ]
    all_run-error (i ∷ order) s =
        all_run-error order (count_one (store i (f i) s))
        ∙ ap (λ o. or_else o (first_thrown f order))
            ((count_one-same (store i (f i) s)).2 ∙ store-error i s (f i))
        ∙ or_else_assoc s.error (f i) (first_thrown f order)

    -- The continuation is called at the last completion.
    all_run-resumed :
        (i : ℕ) (order : List ℕ) (s : AllState A E)
        → s.completed + suc (length order) ≡ s.total
        → (all_run f (i ∷ order) s).resumed ≡ s.resumed + 1
    unfolding all_run all_complete
    all_run-resumed i [] s h =
        let u = store i (f i) s in
        let c = store-completed i s (f i) in ground (arith, count_one-resumed u, c.0, c.1, c.2, h)
    all_run-resumed i (j ∷ order) s h =
        let u = store i (f i) s in
        let c = store-completed i s (f i) in
        let d = count_one-same u in
        let not_yet : (count_one u).resumed ≡ s.resumed =
          ground (arith, count_one-resumed u, c.0, c.1, c.2, h) in
        all_run-resumed j order (count_one u) (omega (arith, c.0, c.1, d.0, d.1, h))
        ∙ (omega (arith, not_yet))

    length-store :
        (i : ℕ) (o : Outcome A E) (s : AllState A E)
        → length (store i o s).results ≡ length s.results
    unfolding store
    length-store i (value a) s = length-modify i (λ x. some a) s.results
    length-store i (thrown e) s = refl

    length-all_run :
        (order : List ℕ) (s : AllState A E) → length (all_run f order s).results ≡ length s.results
    unfolding all_run all_complete
    length-all_run [] s = refl
    length-all_run (i ∷ order) s =
        length-all_run order (count_one (store i (f i) s))
        ∙ ap length ((count_one-same (store i (f i) s)).3)
        ∙ length-store i (f i) s

    -- The result of a task, before and after the task `i` completes.
    get_or-store_other :
        (i k : ℕ) (o : Outcome A E) (s : AllState A E)
        → k < length s.results
        → (i == k) ≡ false
        → get_or (store i o s).results k none ≡ get_or s.results k none
    unfolding store
    get_or-store_other i k (value a) s l t = get_or-modify_in i k (some a) s.results l ∙ (rw t refl)
    get_or-store_other i k (thrown e) s l t = refl

    get_or-store_itself :
        (k : ℕ) (o : Outcome A E) (s : AllState A E)
        → k < length s.results
        → (get_or s.results k none ≡ none) ⊎ (get_or s.results k none ≡ value_of o)
        → get_or (store k o s).results k none ≡ value_of o
    unfolding store
    get_or-store_itself k (value a) s l h =
        let t : (k == k) ≡ true = ground arith in
        get_or-modify_in k k (some a) s.results l ∙ (rw t refl)
    get_or-store_itself k (thrown e) s l h = elim h [ inl d ↦ d | inr d ↦ d ]

    all_run-kept :
        (k : ℕ) (order : List ℕ) (s : AllState A E)
        → k < length s.results
        → get_or s.results k none ≡ value_of (f k)
        → get_or (all_run f order s).results k none ≡ value_of (f k)
    unfolding all_run all_complete
    all_run-kept k [] s l h = h
    all_run-kept k (i ∷ order) s l h =
        let u = store i (f i) s in
        let same = (count_one-same u).3 in
        let l' : k < length (count_one u).results =
          omega (arith, l, ap length same, length-store i (f i) s) in
        all_run-kept k order (count_one u) l' (ap (λ xs. get_or xs k none) same ∙ after)
      where
        after : get_or (store i (f i) s).results k none ≡ value_of (f k)
        after = elim (Bool-cases (i == k)) [
          | inl t ↦
              subst (λ j. get_or (store j (f j) s).results k none ≡ value_of (f k))
                (sym (eq-of_test i k t)) (get_or-store_itself k (f k) s l (inr h))
          | inr t ↦ get_or-store_other i k (f i) s l t ∙ h
        ]

    all_run-result :
        (k : ℕ) (order : List ℕ) (s : AllState A E)
        → k < length s.results
        → get_or s.results k none ≡ none
        → is_in k order ≡ true
        → get_or (all_run f order s).results k none ≡ value_of (f k)
    unfolding all_run all_complete
    all_run-result k [] s l h m = absurd (ground (arith, m))
    all_run-result k (i ∷ order) s l h m =
        let u = store i (f i) s in
        let same = (count_one-same u).3 in
        let l' : k < length (count_one u).results =
          omega (arith, l, ap length same, length-store i (f i) s) in
        elim (Bool-cases (i == k)) [
          | inl t ↦ all_run-kept k order (count_one u) l' (
              ap (λ xs. get_or xs k none) same
              ∙ subst (λ j. get_or (store j (f j) s).results k none ≡ value_of (f k))
                  (sym (eq-of_test i k t)) (get_or-store_itself k (f k) s l (inl h)))
          | inr t ↦
              all_run-result k order (count_one u) l'
                (ap (λ xs. get_or xs k none) same ∙ get_or-store_other i k (f i) s l t ∙ h)
                (ground (arith, m, t))
        ]

get_or-replicate {ℓ} :
    {A : Type ℓ} (n k : ℕ) → get_or (replicate {A = Option A} n none) k none ≡ none
get_or-replicate zero k = refl
get_or-replicate (suc n) zero = refl
get_or-replicate (suc n) (suc k) = get_or-replicate n k

-- What the first tasks have returned, in their order.
abbrev add_value {ℓ κ} : {A : Type ℓ} {E : Type κ} → Outcome A E → List A → List A
add_value (value a) values = a ∷ values
add_value (thrown e) values = values

abbrev pub returned {ℓ κ} : {A : Type ℓ} {E : Type κ} → ℕ → (ℕ → Outcome A E) → List A
returned zero f = []
returned (suc n) f = add_value (f 0) (returned n (λ i. f (suc i)))

-- An exception, or else the values.
abbrev pub thrown_or_all {ℓ κ} : {A : Type ℓ} {E : Type κ} → Option E → List A → Outcome (List A) E
thrown_or_all none values = value values
thrown_or_all (some e) values = thrown e

there-add_value {ℓ κ} :
    {A : Type ℓ} {E : Type κ} (o : Outcome A E) (xs : List (Option A))
    → there (value_of o ∷ xs) ≡ add_value o (there xs)
unfolding there
there-add_value (value a) xs = refl
there-add_value (thrown e) xs = refl

there-returned {ℓ κ} :
    {A : Type ℓ} {E : Type κ} (n : ℕ) (f : ℕ → Outcome A E)
    → there (tabulate n (λ i. value_of (f i))) ≡ returned n f
unfolding there
there-returned zero f = refl
there-returned (suc n) f =
    there-add_value (f 0) (tabulate n (λ i. value_of (f (suc i))))
    ∙ ap (add_value (f 0)) (there-returned n (λ i. f (suc i)))

all_result-returned {ℓ κ} :
    {A : Type ℓ} {E : Type κ} (o : Option E) (n : ℕ) (f : ℕ → Outcome A E)
    → all_result o (tabulate n (λ i. value_of (f i))) ≡ thrown_or_all o (returned n f)
unfolding all_result
all_result-returned none n f = ap value (there-returned n f)
all_result-returned (some e) n f = refl

-- When each of `n` tasks completes once, in any order, `all` calls its continuation once, and then gives
-- the exception that was thrown first, or else what the tasks have returned, in the order of the
-- tasks.
pub all_run-resume {ℓ κ} :
    {A : Type ℓ} {E : Type κ} (f : ℕ → Outcome A E) (n : ℕ) (order : List ℕ)
    → 0 < n
    → length order ≡ n
    → ((k : ℕ) → k < n → is_in k order ≡ true)
    → ((all_run f order (all_state n)).resumed ≡ 1)
      × (all_resume (all_run f order (all_state n))
          ≡ thrown_or_all (first_thrown f order) (returned n f))
unfolding all_resume
all_run-resume f n [] pos l every = absurd (omega (arith, pos, l))
all_run-resume {A} {E} f n (i ∷ order) pos l every =
    let s : AllState A E = all_state n in
    let t = all_run f (i ∷ order) s in
    let len = length-replicate {A = Option A} n none in
    let results =
      eq-tabulate n (λ k. value_of (f k)) t.results (length-all_run f (i ∷ order) s ∙ len)
        (λ k h.
          all_run-result f k (i ∷ order) s (omega (arith, h, len)) (get_or-replicate n k)
            (every k h)) in
    (
      all_run-resumed f i order s (omega (arith, l)),
      ap (λ o. all_result o t.results) (all_run-error f (i ∷ order) s)
          ∙ (ap (all_result (first_thrown f (i ∷ order))) results
              ∙ all_result-returned (first_thrown f (i ∷ order)) n f),
    )
