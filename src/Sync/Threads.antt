-- ===== src/Sync/Threads.antt =====
-- Threads that interleave: a list of program counters, of which one changes at a time.
use pman.Common.{
  ℕ, zero, suc, ◌+◌, ◌≤◌, ◌≡◌, refl, ap, List, [], ◌∷◌, Option, none, some, modify, sum_by, length,
  All, subst, Bool, true, false, if◌then◌else◌, arith,
}

module _ {ℓ} {A : Type ℓ} where
  abbrev pub get_elem? : List A → ℕ → Option A
  get_elem? [] i = none
  get_elem? (x ∷ xs) zero = some x
  get_elem? (x ∷ xs) (suc i) = get_elem? xs i

  abbrev pub set : ℕ → A → List A → List A
  set i a xs = modify i (λ x. a) xs

  pub sum_by-set :
      (w : A → ℕ) (i : ℕ) (a b : A) (xs : List A)
      → get_elem? xs i ≡ some a
      → sum_by w (set i b xs) + w a ≡ sum_by w xs + w b
  unfolding sum_by
  sum_by-set w i a b [] h = cc (h)
  sum_by-set w zero a b (x ∷ xs) h = let e : x ≡ a = cc (h) in omega (arith, ap w e)
  sum_by-set w (suc i) a b (x ∷ xs) h = omega (arith, sum_by-set w i a b xs h)

  pub sum_by-le :
      (w : A → ℕ) (i : ℕ) (a : A) (xs : List A) → get_elem? xs i ≡ some a → w a ≤ sum_by w xs
  unfolding sum_by
  sum_by-le w i a [] h = cc (h)
  sum_by-le w zero a (x ∷ xs) h = let e : x ≡ a = cc (h) in omega (arith, ap w e)
  sum_by-le w (suc i) a (x ∷ xs) h = omega (arith, sum_by-le w i a xs h)

  -- Weights that are 1 together count the threads.
  pub length-set : (i : ℕ) (a : A) (xs : List A) → length (set i a xs) ≡ length xs
  length-set i a [] = refl
  length-set zero a (x ∷ xs) = refl
  length-set (suc i) a (x ∷ xs) = ap suc (length-set i a xs)

  pub sum_by-const : (w : A → ℕ) → ((a : A) → w a ≡ 1) → (xs : List A) → sum_by w xs ≡ length xs
  unfolding sum_by
  sum_by-const w h [] = refl
  sum_by-const w h (x ∷ xs) = omega (arith, h x, sum_by-const w h xs)

-- A property of every thread.
module _ {ℓ κ} {A : Type ℓ} (P : A → Type κ) where
  pub All-set : (i : ℕ) (a : A) (xs : List A) → P a → All P xs → All P (set i a xs)
  All-set i a [] p all = all
  All-set zero a (x ∷ xs) p all = (p, all.1)
  All-set (suc i) a (x ∷ xs) p all = (all.0, All-set i a xs p all.1)

  pub All-get_elem? : (i : ℕ) (a : A) (xs : List A) → get_elem? xs i ≡ some a → All P xs → P a
  All-get_elem? i a [] h all = cc (h)
  All-get_elem? zero a (x ∷ xs) h all = let e : x ≡ a = cc (h) in subst P e all.0
  All-get_elem? (suc i) a (x ∷ xs) h all = All-get_elem? i a xs h all.1

pub All-imp {ℓ κ μ} :
    {A : Type ℓ} (P : A → Type κ) (Q : A → Type μ) (xs : List A)
    → ((a : A) → P a → Q a)
    → All P xs
    → All Q xs
All-imp P Q [] f all = tt
All-imp P Q (x ∷ xs) f all = (f x all.0, All-imp P Q xs f all.1)

-- A property of both branches.
pub either {ℓ κ} :
    {A : Type ℓ} (P : A → Type κ) (b : Bool) (x y : A)
    → (b ≡ true → P x)
    → (b ≡ false → P y)
    → P (if b then x else y)
either P true x y t f = t refl
either P false x y t f = f refl
