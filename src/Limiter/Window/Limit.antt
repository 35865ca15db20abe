-- ===== src/Limiter/Window/Limit.antt =====
-- The promise of the sliding window of src/rate_limiter.cpp: no window holds too many grants.
use pman.Common.{
  ℕ, ◌+◌, ◌≤◌, ◌<◌, ◌≡◌, refl, sym, ap, subst, ◌∙◌, inl, inr, List, [], ◌∷◌, ◌++◌, length,
  length-append, append_assoc, ltb, leb, ◌&&◌, if◌then◌else◌, Bool-cases, ltb→lt, dec_le, arith,
}
use pman.Limiter.Window.{drop_expired, System, start, step, run, Steady, clock}

-- The grants made from time `t` up to `t + duration`.
pub count_in : ℕ → ℕ → List ℕ → ℕ
count_in duration t [] = 0
count_in duration t (g ∷ gs) =
    (if leb t g && leb g (t + duration) then 1 else 0) + count_in duration t gs

count_in-append :
    (d t : ℕ) (xs ys : List ℕ) → count_in d t (xs ++ ys) ≡ count_in d t xs + count_in d t ys
unfolding count_in
count_in-append d t [] ys = omega arith
count_in-append d t (x ∷ xs) ys = omega (arith, count_in-append d t xs ys)

count_in-le : (d t : ℕ) (xs : List ℕ) → count_in d t xs ≤ length xs
unfolding count_in
count_in-le d t [] = omega arith
count_in-le d t (x ∷ xs) = ground (arith, count_in-le d t xs)

count_in_beyond : (d t g : ℕ) → ¬ (g ≤ t + d) → count_in d t (g ∷ []) ≡ 0
unfolding count_in
count_in_beyond d t g h = ground arith

-- Every stamp of a list has left the window that ends at `now`.
abbrev pub Expired : ℕ → ℕ → List ℕ → Type 0
Expired d now [] = Unit {0}
Expired d now (x ∷ xs) = (x + d < now) × Expired d now xs

pub Expired-later :
    (d : ℕ) {now later : ℕ} (xs : List ℕ) → now ≤ later → Expired d now xs → Expired d later xs
Expired-later d [] h e = tt
Expired-later d (x ∷ xs) h e = (omega arith, Expired-later d xs h e.1)

Expired-append :
    (d now : ℕ) (xs ys : List ℕ) → Expired d now xs → Expired d now ys → Expired d now (xs ++ ys)
Expired-append d now [] ys a b = b
Expired-append d now (x ∷ xs) ys a b = (a.0, Expired-append d now xs ys a.1 b)

-- A window that reaches `now` holds no stamp that has expired then.
count_in-Expired :
    (d t now : ℕ) (xs : List ℕ) → Expired d now xs → now ≤ t + d → count_in d t xs ≡ 0
unfolding count_in
count_in-Expired d t now [] e h = refl
count_in-Expired d t now (x ∷ xs) e h = ground (arith, count_in-Expired d t now xs e.1 h)

-- `cleanup` cuts off a front that has expired.
pub record Cut (d now : ℕ) (xs : List ℕ) : Type 0 where
  pub gone : List ℕ
  pub expired : Expired d now gone
  pub split : xs ≡ gone ++ drop_expired d now xs

cut : (d now : ℕ) (xs : List ℕ) → Cut d now xs
unfolding drop_expired
cut d now [] = record { gone = []; expired = tt; split = refl }
cut d now (x ∷ xs) = elim (Bool-cases (ltb (x + d) now)) [
  | inl old ↦
      let c = cut d now xs in
      record {
        gone = x ∷ c.gone;
        expired = (ltb→lt _ _ old, c.expired);
        split = rw old (ap (◌∷◌ x) c.split);
      }
  | inr fresh ↦ record { gone = []; expired = tt; split = rw fresh }
]

-- The grants are those that expired by the last reading of the clock, and the timestamps kept.
pub record IsValid (max d now : ℕ) (s : System) : Type 0 where
  pub limit : s.limiter.max_requests ≡ max
  pub window : s.limiter.duration ≡ d
  pub old : List ℕ
  pub expired : Expired s.limiter.duration now old
  pub split : s.granted ≡ old ++ s.limiter.timestamps
  pub room : length s.limiter.timestamps ≤ s.limiter.max_requests
  pub within : (t : ℕ) → count_in s.limiter.duration t s.granted ≤ s.limiter.max_requests

pub start-IsValid : (max d : ℕ) → IsValid max d 0 (start max d)
unfolding count_in
start-IsValid max d = record {
  limit = refl;
  window = refl;
  old = [];
  expired = tt;
  split = refl;
  room = omega arith;
  within = λ t. omega arith;
}

module _ (max d last now stamp : ℕ) (s : System) (v : IsValid max d last s) (h : last ≤ now)
    (h' : now ≤ stamp) where
  abbrev width : ℕ
  width = s.limiter.duration

  abbrev kept : List ℕ
  kept = drop_expired width now s.limiter.timestamps

  gone : Cut width now s.limiter.timestamps
  gone = cut width now s.limiter.timestamps

  gone-Expired : Expired width now (v.old ++ gone.gone)
  gone-Expired =
      Expired-append width now v.old gone.gone (Expired-later width v.old h v.expired) gone.expired

  granted-split : s.granted ≡ (v.old ++ gone.gone) ++ kept
  granted-split = v.split ∙ (ap (◌++◌ v.old) gone.split ∙ sym (append_assoc v.old gone.gone kept))

  length-kept : length kept ≤ s.limiter.max_requests
  length-kept = omega (arith, ap length gone.split, length-append gone.gone kept, v.room)

  -- A window that the new grant joins holds besides it only timestamps that are kept.
  within_granted :
      (t : ℕ)
      → length kept < s.limiter.max_requests
      → count_in width t (s.granted ++ stamp ∷ []) ≤ s.limiter.max_requests
  within_granted t room = elim (dec_le stamp (t + width)) [
    | yes reaches ↦ omega (
      arith,
      count_in-append width t s.granted (stamp ∷ []),
      ap (count_in width t) granted-split,
      count_in-append width t (v.old ++ gone.gone) kept,
      count_in-Expired width t now (v.old ++ gone.gone) gone-Expired,
      count_in-le width t kept,
      count_in-le width t (stamp ∷ []),
    )
    | no beyond ↦ omega (
      arith,
      count_in-append width t s.granted (stamp ∷ []),
      count_in_beyond width t stamp beyond,
      v.within t,
    )
  ]

  pub step-IsValid : IsValid max d stamp (step s (now, stamp))
  unfolding step
  step-IsValid = elim (Bool-cases (ltb (length kept) s.limiter.max_requests)) [
    | inl free ↦ rw free (record {
      limit = v.limit;
      window = v.window;
      old = v.old ++ gone.gone;
      expired = Expired-later width (v.old ++ gone.gone) h' gone-Expired;
      split = rw granted-split (append_assoc (v.old ++ gone.gone) kept (stamp ∷ []));
      room = omega (arith, length-append kept (stamp ∷ []), ltb→lt _ _ free);
      within = λ t. within_granted t (ltb→lt _ _ free);
    })
    | inr full ↦ rw full (record {
      limit = v.limit;
      window = v.window;
      old = v.old ++ gone.gone;
      expired = Expired-later width (v.old ++ gone.gone) h' gone-Expired;
      split = granted-split;
      room = length-kept;
      within = v.within;
    })
  ]

pub run-IsValid :
    (max d last : ℕ) (s : System) (cs : List (ℕ × ℕ))
    → IsValid max d last s
    → Steady last cs
    → IsValid max d (clock last cs) (run s cs)
unfolding run
run-IsValid max d last s [] v h = v
run-IsValid max d last s ((now, stamp) ∷ cs) v h =
    run-IsValid max d stamp (step s (now, stamp)) cs (step-IsValid max d last now stamp s v h.0 h.1)
      h.2

pub reached-IsValid :
    (max d : ℕ) (cs : List (ℕ × ℕ))
    → Steady 0 cs
    → IsValid max d (clock 0 cs) (run (start max d) cs)
reached-IsValid max d cs h = run-IsValid max d 0 (start max d) cs (start-IsValid max d) h

pub IsValid-limit :
    (max d last t : ℕ) (s : System) → IsValid max d last s → count_in d t s.granted ≤ max
IsValid-limit max d last t s v =
    subst (λ w. count_in w t s.granted ≤ max) v.window
      (subst (λ m. count_in s.limiter.duration t s.granted ≤ m) v.limit (v.within t))

-- A limiter for `max` requests in a window of `d` nanoseconds: over any history of `tryAcquire` in
-- which the clock does not go back, at most `max` grants are made from `t` up to `t + d`, for
-- every time `t`.
pub window-limit :
    (max d t : ℕ) (cs : List (ℕ × ℕ))
    → Steady 0 cs
    → count_in d t (run (start max d) cs).granted ≤ max
window-limit max d t cs h =
    IsValid-limit max d (clock 0 cs) t (run (start max d) cs) (reached-IsValid max d cs h)
