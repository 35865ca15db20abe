-- ===== src/Cron/Field/Bits.antt =====
-- Bitsets of src/cron_scheduler.cpp and the numbers of their bits.
use pman.Common.{
  ℕ, zero, suc, ◌+◌, ◌≤◌, ◌<◌, ◌≡◌, refl, sym, ap, ◌∙◌, Bool, true, false, List, [], ◌∷◌, ◌||◌,
  ◌&&◌, ltb, leb, ◌==◌, length, length-modify, length-replicate, get_or-modify, All, Bool-cases,
  inl, inr, arith,
}
use pman.Cron.Field.{Bits, set, test, none_set, set_from, values_from}

-- Two bitsets of one size with the same bits are equal.
pub Bits-eq : (xs ys : Bits) → length xs ≡ length ys → ((i : ℕ) → test i xs ≡ test i ys) → xs ≡ ys
unfolding test
Bits-eq [] [] l h = refl
Bits-eq [] (y ∷ ys) l h = absurd (omega (arith, l))
Bits-eq (x ∷ xs) [] l h = absurd (omega (arith, l))
Bits-eq (x ∷ xs) (y ∷ ys) l h =
    ap (λ b. b ∷ xs) (h 0) ∙ ap (λ bs. y ∷ bs) (Bits-eq xs ys (omega (arith, l)) (λ i. h (suc i)))

-- No bit out of range is set.
test_out : (j : ℕ) (bits : Bits) → length bits ≤ j → test j bits ≡ false
unfolding test
test_out j [] h = refl
test_out zero (b ∷ bs) h = absurd (omega (arith, h))
test_out (suc j) (b ∷ bs) h = test_out j bs (omega (arith, h))

pub test-set :
    (i j : ℕ) (bits : Bits) → i < length bits → test j (set i bits) ≡ (i == j || test j bits)
unfolding test set
test-set i j bits h = get_or-modify i j (λ b. true) bits false h ∙ ground arith

pub length-set : (i : ℕ) (bits : Bits) → length (set i bits) ≡ length bits
unfolding set
length-set i bits = length-modify i (λ b. true) bits

pub test-none_set : (size i : ℕ) → test i (none_set size) ≡ false
unfolding test none_set
test-none_set zero i = refl
test-none_set (suc n) zero = refl
test-none_set (suc n) (suc i) = test-none_set n i

-- Whether a number is among some.
pub among : ℕ → List ℕ → Bool
among j [] = false
among j (v ∷ vs) = v == j || among j vs

among_below : (i j : ℕ) (bits : Bits) → j < i → among j (values_from i bits) ≡ false
unfolding among values_from
among_below i j [] h = refl
among_below i j (true ∷ bs) h = ground (arith, among_below (i + 1) j bs)
among_below i j (false ∷ bs) h = among_below (i + 1) j bs (omega arith)

among-values_from :
    (i j k : ℕ) (bits : Bits) → k ≡ i + j → among k (values_from i bits) ≡ test j bits
unfolding among values_from test
among-values_from i j k [] h = refl
among-values_from i zero k (true ∷ bs) h = ground (arith, h)
among-values_from i zero k (false ∷ bs) h = among_below (i + 1) k bs (omega (arith, h))
among-values_from i (suc j) k (true ∷ bs) h =
    ground (arith, h, among-values_from (i + 1) j k bs (omega (arith, h)))
among-values_from i (suc j) k (false ∷ bs) h = among-values_from (i + 1) j k bs (omega (arith, h))

-- Setting numbers one after the other sets those that are among them.
unfoldable pub set_all : List ℕ → Bits → Bits
set_all [] bits = bits
set_all (v ∷ vs) bits = set_all vs (set v bits)

test-set_all :
    (vs : List ℕ) (j : ℕ) (bits : Bits)
    → All (λ v. v < length bits) vs
    → test j (set_all vs bits) ≡ (among j vs || test j bits)
unfolding set_all among
test-set_all [] j bits h = refl
test-set_all (v ∷ vs) j bits h =
    test-set_all vs j (set v bits) (rw (length-set v bits) h.1)
    ∙ ground (arith, test-set v j bits h.0)

length-set_all : (vs : List ℕ) (bits : Bits) → length (set_all vs bits) ≡ length bits
unfolding set_all
length-set_all [] bits = refl
length-set_all (v ∷ vs) bits = length-set_all vs (set v bits) ∙ length-set v bits

pub values_from-lt :
    (i n : ℕ) (bits : Bits) → i + length bits ≤ n → All (λ v. v < n) (values_from i bits)
unfolding values_from
values_from-lt i n [] h = tt
values_from-lt i n (true ∷ bs) h =
    (omega (arith, h), values_from-lt (i + 1) n bs (omega (arith, h)))
values_from-lt i n (false ∷ bs) h = values_from-lt (i + 1) n bs (omega (arith, h))

pub length-none_set : (size : ℕ) → length (none_set size) ≡ size
unfolding none_set
length-none_set size = length-replicate size false

-- The bits of a bitset, set in an empty one, are the bitset.
pub set_all-values_from :
    (bits : Bits) → set_all (values_from 0 bits) (none_set (length bits)) ≡ bits
set_all-values_from bits =
    Bits-eq _ bits
      (length-set_all (values_from 0 bits) (none_set (length bits)) ∙ length-none_set (length bits))
      same
  where
    same : (j : ℕ) → test j (set_all (values_from 0 bits) (none_set (length bits))) ≡ test j bits
    same j =
        test-set_all (values_from 0 bits) j (none_set (length bits))
          (rw (length-none_set (length bits)) (values_from-lt 0 (length bits) bits (omega arith)))
        ∙ ground (arith, among-values_from 0 j j bits (omega arith), test-none_set (length bits) j)

-- As many numbers as bits: all are set, and the loop over all numbers gives the bitset.
pub length-values_from : (i : ℕ) (bits : Bits) → length (values_from i bits) ≤ length bits
unfolding values_from
length-values_from i [] = omega arith
length-values_from i (b ∷ bs) = ground (arith, length-values_from (i + 1) bs)

all_values :
    (i j : ℕ) (bits : Bits)
    → length (values_from i bits) ≡ length bits
    → j < length bits
    → test j bits ≡ true
unfolding values_from test
all_values i j [] h l = elim l [ ]
all_values i zero (b ∷ bs) h l = ground (arith, h, length-values_from (i + 1) bs)
all_values i (suc j) (true ∷ bs) h l = all_values (i + 1) j bs (omega (arith, h)) (omega (arith, l))
all_values i (suc j) (false ∷ bs) h l = absurd (omega (arith, h, length-values_from (i + 1) bs))

pub set_from_lem :
    (rounds i j finish : ℕ) (bits : Bits)
    → i + rounds ≤ length bits
    → test j (set_from rounds i finish bits)
      ≡ ((leb i j && (ltb j (i + rounds) && leb j finish)) || test j bits)
unfolding set_from
set_from_lem zero i j finish bits h = ground arith
set_from_lem (suc r) i j finish bits h = elim (Bool-cases (leb i finish)) [
  | inl t ↦ rw t (
      set_from_lem r (i + 1) j finish (set i bits) (omega (arith, h, length-set i bits))
      ∙ ground (arith, t, test-set i j bits (omega arith)))
  | inr t ↦ rw t (ground (arith, t))
]

pub length-set_from :
    (rounds i finish : ℕ) (bits : Bits) → length (set_from rounds i finish bits) ≡ length bits
unfolding set_from
length-set_from zero i finish bits = refl
length-set_from (suc r) i finish bits =
    ground (arith, length-set_from r (i + 1) finish (set i bits), length-set i bits)

-- Where every bit is set, the loop over all numbers gives the bitset.
pub set_from-full :
    (max rounds : ℕ) (bits : Bits)
    → length bits ≡ max + 1
    → rounds ≡ max + 1
    → length (values_from 0 bits) ≡ max + 1
    → set_from rounds 0 max (none_set (max + 1)) ≡ bits
set_from-full max rounds bits l r full =
    Bits-eq _ bits
      (length-set_from rounds 0 max (none_set (max + 1)) ∙ length-none_set (max + 1) ∙ sym l) same
  where
    same : (j : ℕ) → test j (set_from rounds 0 max (none_set (max + 1))) ≡ test j bits
    same j =
        set_from_lem rounds 0 j max (none_set (max + 1))
          (omega (arith, r, length-none_set (max + 1)))
        ∙ ground (
          arith,
          r,
          l,
          test-none_set (max + 1) j,
          all_values 0 j bits (full ∙ sym l),
          test_out j bits,
        )
