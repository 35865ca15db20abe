-- ===== src/Limiter/Window/Remaining.antt =====
-- `tryAcquire` and `remainingRequests` of src/rate_limiter.cpp agree.
use pman.Common.{
  ℕ, ◌+◌, ◌-◌, ◌≤◌, ◌≡◌, refl, List, [], ◌∷◌, ◌++◌, length, ltb, Bool-cases, arith, inl, inr,
}
use pman.Limiter.Window.{
  Window, drop_expired, cleanup, try_acquire, count_valid, remaining_requests, System, start, step,
  run, Steady, clock,
}

-- The timestamps never go down along the list, and none is later than `last`.
abbrev pub Sorted : ℕ → ℕ → List ℕ → Type 0
Sorted from last [] = from ≤ last
Sorted from last (t ∷ ts) = (from ≤ t) × Sorted t last ts

Sorted-snoc :
    (from last stamp : ℕ) (ts : List ℕ)
    → Sorted from last ts
    → last ≤ stamp
    → Sorted from stamp (ts ++ stamp ∷ [])
Sorted-snoc from last stamp [] s h = omega arith
Sorted-snoc from last stamp (t ∷ ts) s h = (s.0, Sorted-snoc t last stamp ts s.1 h)

Sorted-bound : (from last : ℕ) (ts : List ℕ) → Sorted from last ts → from ≤ last
Sorted-bound from last [] s = s
Sorted-bound from last (t ∷ ts) s = omega (arith, Sorted-bound t last ts s.1)

Sorted-from :
    (from lower last : ℕ) (ts : List ℕ) → lower ≤ from → Sorted from last ts → Sorted lower last ts
Sorted-from from lower last [] h s = omega arith
Sorted-from from lower last (t ∷ ts) h s = (omega arith, s.1)

Sorted-drop :
    (d now from last : ℕ) (ts : List ℕ)
    → Sorted from last ts
    → Sorted from last (drop_expired d now ts)
unfolding drop_expired
Sorted-drop d now from last [] s = s
Sorted-drop d now from last (t ∷ ts) s = elim (Bool-cases (ltb (t + d) now)) [
  | inl old ↦
      rw old (Sorted-from t from last (drop_expired d now ts) s.0 (Sorted-drop d now t last ts s.1))
  | inr fresh ↦ rw fresh s
]

-- Behind a timestamp that is still valid all are.
count_valid-Sorted :
    (d now from last : ℕ) (ts : List ℕ)
    → Sorted from last ts
    → now ≤ from + d
    → count_valid d now ts ≡ length ts
unfolding count_valid
count_valid-Sorted d now from last [] s h = refl
count_valid-Sorted d now from last (t ∷ ts) s h =
    ground (arith, count_valid-Sorted d now t last ts s.1)

-- In a sorted list `cleanup` keeps exactly the timestamps that `remainingRequests` counts.
count_valid-drop :
    (d now from last : ℕ) (ts : List ℕ)
    → Sorted from last ts
    → count_valid d now ts ≡ length (drop_expired d now ts)
unfolding count_valid drop_expired
count_valid-drop d now from last [] s = refl
count_valid-drop d now from last (t ∷ ts) s =
    ground (arith, count_valid-drop d now t last ts s.1, count_valid-Sorted d now t last ts s.1)

Sorted-later :
    (from last later : ℕ) (ts : List ℕ) → Sorted from last ts → last ≤ later → Sorted from later ts
Sorted-later from last later [] s h = omega arith
Sorted-later from last later (t ∷ ts) s h = (s.0, Sorted-later t last later ts s.1 h)

length-drop_expired : (d now : ℕ) (ts : List ℕ) → length (drop_expired d now ts) ≤ length ts
unfolding drop_expired
length-drop_expired d now [] = omega arith
length-drop_expired d now (t ∷ ts) = ground (arith, length-drop_expired d now ts)

step-Sorted :
    (last now stamp : ℕ) (s : System)
    → last ≤ stamp
    → Sorted 0 last s.limiter.timestamps
    → Sorted 0 stamp (step s (now, stamp)).limiter.timestamps
unfolding step
step-Sorted last now stamp s h o =
    let kept = drop_expired s.limiter.duration now s.limiter.timestamps in
    let o' = Sorted-drop s.limiter.duration now 0 last s.limiter.timestamps o in
    elim (Bool-cases (ltb (length kept) s.limiter.max_requests)) [
      | inl free ↦ rw free (Sorted-snoc 0 last stamp kept o' h)
      | inr full ↦ rw full (Sorted-later 0 last stamp kept o' h)
    ]

run-Sorted :
    (last : ℕ) (s : System) (cs : List (ℕ × ℕ))
    → Sorted 0 last s.limiter.timestamps
    → Steady last cs
    → Sorted 0 (clock last cs) (run s cs).limiter.timestamps
unfolding run
run-Sorted last s [] o h = o
run-Sorted last s ((now, stamp) ∷ cs) o h =
    run-Sorted stamp (step s (now, stamp)) cs (step-Sorted last now stamp s (omega arith) o) h.2

module _ (max d : ℕ) (cs : List (ℕ × ℕ)) (steady : Steady 0 cs) where
  abbrev limiter : Window
  limiter = (run (start max d) cs).limiter

  valid-kept :
      (now : ℕ)
      → count_valid limiter.duration now limiter.timestamps
        ≡ length (drop_expired limiter.duration now limiter.timestamps)
  valid-kept now =
      count_valid-drop limiter.duration now 0 (clock 0 cs) limiter.timestamps
        (run-Sorted 0 (start max d) cs (omega arith) steady)

-- After any history of `tryAcquire` in which the clock does not go back, and for every reading
-- `now` of the clock: `tryAcquire` succeeds exactly when `remainingRequests` is not 0, and
-- `remainingRequests` is what the timestamps that `cleanup` keeps leave of the limit.
pub try_acquire-remaining :
    (max d now stamp : ℕ) (cs : List (ℕ × ℕ))
    → Steady 0 cs
    → let w = (run (start max d) cs).limiter in
      ((try_acquire now stamp w).0 ≡ ltb 0 (remaining_requests now w))
      × (remaining_requests now w ≡ w.max_requests - length (cleanup now w).timestamps)
unfolding try_acquire remaining_requests
try_acquire-remaining max d now stamp cs h = ground (arith, valid-kept max d cs h now)
