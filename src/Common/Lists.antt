-- ===== src/Common/Lists.antt =====
-- Lists measured by native numbers, under the library's names.
use Prim.Native.Nat.{ℕ, zero, suc, ◌+◌, ◌<◌}
use mathlib.Core.Path.{◌≡◌, refl, ap, ◌∙◌}
use pman.Common.Tests.{◌==◌, if◌then◌else◌}
use mathlib.Core.List.{List, [], ◌∷◌, ◌++◌}
use native.Mathlib.Omega.{arith}

module _ {ℓ} {A : Type ℓ} where
  abbrev pub length : List A → ℕ
  length [] = 0
  length (x ∷ xs) = suc (length xs)

  pub length-append : (xs ys : List A) → length (xs ++ ys) ≡ length xs + length ys
  length-append [] ys = omega arith
  length-append (x ∷ xs) ys = omega (arith, length-append xs ys)

  pub eq-nil : (xs : List A) → length xs ≡ 0 → xs ≡ []
  eq-nil [] h = refl
  eq-nil (x ∷ xs) h = absurd (omega arith)

module _ {ℓ} {A : Type ℓ} where
  abbrev pub get_or : List A → ℕ → A → A
  get_or [] i d = d
  get_or (x ∷ xs) zero d = x
  get_or (x ∷ xs) (suc i) d = get_or xs i d

  -- The element at an index is replaced; out of range nothing changes.
  abbrev pub modify : ℕ → (A → A) → List A → List A
  modify i f [] = []
  modify zero f (x ∷ xs) = f x ∷ xs
  modify (suc i) f (x ∷ xs) = x ∷ modify i f xs

  abbrev pub replicate : ℕ → A → List A
  replicate zero a = []
  replicate (suc n) a = a ∷ replicate n a

  pub length-replicate : (n : ℕ) (a : A) → length (replicate n a) ≡ n
  length-replicate zero a = refl
  length-replicate (suc n) a = ap suc (length-replicate n a)

  pub length-modify : (i : ℕ) (f : A → A) (xs : List A) → length (modify i f xs) ≡ length xs
  length-modify i f [] = refl
  length-modify zero f (x ∷ xs) = refl
  length-modify (suc i) f (x ∷ xs) = ap suc (length-modify i f xs)

  pub get_or-modify :
      (i j : ℕ) (f : A → A) (xs : List A) (d : A)
      → i < length xs
      → get_or (modify i f xs) j d ≡ (if i == j then f (get_or xs i d) else get_or xs j d)
  get_or-modify i j f [] d h = elim h [ ]
  get_or-modify zero zero f (x ∷ xs) d h = refl
  get_or-modify zero (suc j) f (x ∷ xs) d h = ground arith
  get_or-modify (suc i) zero f (x ∷ xs) d h = ground arith
  get_or-modify (suc i) (suc j) f (x ∷ xs) d h =
      get_or-modify i j f xs d (omega arith) ∙ ground arith

  -- The sum of a weight over a list.
  unfoldable pub sum_by : (A → ℕ) → List A → ℕ
  sum_by w [] = 0
  sum_by w (x ∷ xs) = w x + sum_by w xs

  pub sum_by-append : (w : A → ℕ) (xs ys : List A) → sum_by w (xs ++ ys) ≡ sum_by w xs + sum_by w ys
  unfolding sum_by
  sum_by-append w [] ys = omega arith
  sum_by-append w (x ∷ xs) ys = omega (arith, sum_by-append w xs ys)

  pub sum_by-replicate : (w : A → ℕ) (n : ℕ) (a : A) → w a ≡ 0 → sum_by w (replicate n a) ≡ 0
  unfolding sum_by
  sum_by-replicate w zero a e = refl
  sum_by-replicate w (suc n) a e = omega (arith, sum_by-replicate w n a e)

  pub sum_by-modify :
      (w : A → ℕ) (i : ℕ) (f : A → A) (xs : List A) (d : A)
      → i < length xs
      → sum_by w (modify i f xs) + w (get_or xs i d) ≡ sum_by w xs + w (f (get_or xs i d))
  unfolding sum_by
  sum_by-modify w i f [] d h = elim h [ ]
  sum_by-modify w zero f (x ∷ xs) d h = omega arith
  sum_by-modify w (suc i) f (x ∷ xs) d h = omega (arith, sum_by-modify w i f xs d (omega arith))

  -- Where the default weighs nothing, before and after, the index may be out of range.
  pub sum_by-modify_any :
      (w : A → ℕ) (i : ℕ) (f : A → A) (xs : List A) (d : A)
      → w d ≡ 0
      → w (f d) ≡ 0
      → sum_by w (modify i f xs) + w (get_or xs i d) ≡ sum_by w xs + w (f (get_or xs i d))
  unfolding sum_by
  sum_by-modify_any w i f [] d z z' = omega arith
  sum_by-modify_any w zero f (x ∷ xs) d z z' = omega arith
  sum_by-modify_any w (suc i) f (x ∷ xs) d z z' = omega (arith, sum_by-modify_any w i f xs d z z')

  -- A property of every element.
  abbrev pub All {κ} : (A → Type κ) → List A → Type κ
  All P [] = Unit
  All P (x ∷ xs) = P x × All P xs

  pub All-replicate {κ} : (P : A → Type κ) (n : ℕ) (a : A) → P a → All P (replicate n a)
  All-replicate P zero a p = tt
  All-replicate P (suc n) a p = (p, All-replicate P n a p)

  pub All-modify {κ} :
      (P : A → Type κ) (i : ℕ) (f : A → A) (xs : List A)
      → ((x : A) → P x → P (f x))
      → All P xs
      → All P (modify i f xs)
  All-modify P i f [] keep p = tt
  All-modify P zero f (x ∷ xs) keep p = (keep x p.0, p.1)
  All-modify P (suc i) f (x ∷ xs) keep p = (p.0, All-modify P i f xs keep p.1)

  pub All-get_or {κ} :
      (P : A → Type κ) (i : ℕ) (xs : List A) (d : A) → i < length xs → All P xs → P (get_or xs i d)
  All-get_or P i [] d h p = elim h [ ]
  All-get_or P zero (x ∷ xs) d h p = p.0
  All-get_or P (suc i) (x ∷ xs) d h p = All-get_or P i xs d (omega arith) p.1
