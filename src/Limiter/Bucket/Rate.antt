-- ===== src/Limiter/Bucket/Rate.antt =====
-- What the token bucket of src/rate_limiter.cpp promises.
use pman.Common.{
  ℕ, ◌+◌, ◌-◌, ◌*◌, ◌/◌, ◌≤◌, ◌<◌, ◌≡◌, refl, ap, ◌∙◌, ◌≢◌, List, [], ◌∷◌, leb, min, some,
  if◌then◌else◌, Bool-cases, leb→le, ◌⊎◌, inl, inr, arith,
}
use pman.Limiter.Bucket.{
  Bucket, take_tokens, try_acquire, available_tokens, time_until_available, System, step, run,
  Steady, clock,
}

-- One call: what is given and what is left is at most what there was and what the time has added.
pub step-balance :
    (s : System) (now n : ℕ)
    → let t = step s (now, n) in
      (t.given + t.bucket.tokens
        ≤ s.given + (s.bucket.tokens + (now - s.bucket.last_refill) * s.bucket.rate))
      × (t.bucket.tokens ≤ t.bucket.burst)
      × (t.bucket.last_refill ≡ now)
      × (t.bucket.rate ≡ s.bucket.rate)
      × (t.bucket.burst ≡ s.bucket.burst)
unfolding step
step-balance s now n = ground arith

pub elapsed-add : (t now c r : ℕ) → t ≤ now → now ≤ c → (c - now) * r + (now - t) * r ≡ (c - t) * r
elapsed-add t now c r h k =
    let e : (c - now) + (now - t) ≡ c - t = omega arith in omega (arith, ap (λ (x : ℕ). x * r) e)

pub clock-le : (t : ℕ) (cs : List (ℕ × ℕ)) → Steady t cs → t ≤ clock t cs
clock-le t [] h = omega arith
clock-le t ((now, n) ∷ cs) h = omega (arith, clock-le now cs h.1)

pub run_lem :
    (s : System) (t r : ℕ) (cs : List (ℕ × ℕ))
    → s.bucket.last_refill ≡ t
    → s.bucket.rate ≡ r
    → Steady t cs
    → (run s cs).given + (run s cs).bucket.tokens ≤ s.given + s.bucket.tokens + (clock t cs - t) * r
unfolding run
run_lem s t r [] e e' h = omega arith
run_lem s t r ((now, n) ∷ cs) e e' h =
    let b = step-balance s now n in
    let rest = run_lem (step s (now, n)) now r cs b.2 (b.3 ∙ e') h.1 in
    let added : (now - s.bucket.last_refill) * s.bucket.rate ≡ (now - t) * r = rw (e, e') refl in
    omega (arith, b.0, rest, added, elapsed-add t now (clock now cs) r h.0 (clock-le now cs h.1))

-- After a call at time `now`, over any further history in which the clock does not go back, at most
-- a burst and what the elapsed time adds at the bucket's rate is given out.
pub bucket-limit :
    (s : System) (now n : ℕ) (cs : List (ℕ × ℕ))
    → Steady now cs
    → (run (step s (now, n)) cs).given
      ≤ (step s (now, n)).given + s.bucket.burst + (clock now cs - now) * s.bucket.rate
bucket-limit s now n cs h =
    let b = step-balance s now n in
    omega (arith, b.1, b.4, run_lem (step s (now, n)) now s.bucket.rate cs b.2 b.3 h)

-- A call of `tryAcquire` for at least one token: it succeeds exactly when `availableTokens` is at
-- least what it asks for, then takes just that, and otherwise only refills; the bucket holds at
-- most a burst afterwards.
pub try_acquire-available :
    (now n : ℕ) (b : Bucket)
    → n ≢ 0
    → let (ok, b') = take_tokens now n b in
      (try_acquire now n b ≡ some (ok, b'))
      × (ok ≡ leb n (available_tokens now b))
      × (b'.tokens ≡ (if ok then available_tokens now b - n else available_tokens now b))
      × (b'.tokens ≤ b'.burst)
unfolding try_acquire available_tokens
try_acquire-available now n b h = ground arith

quotient-enough : (need rate : ℕ) → 0 < rate → need ≤ (need / rate + 1) * rate
quotient-enough need rate h = omega arith

wait-enough :
    (tokens elapsed rate burst n q : ℕ)
    → n ≤ burst
    → (n ≤ min (tokens + elapsed * rate) burst)
      ⊎ (n - min (tokens + elapsed * rate) burst ≤ (q + 1) * rate)
    → n ≤ min (tokens + (elapsed + (q + 1)) * rate) burst
wait-enough tokens elapsed rate burst n q h e = omega arith

-- For at most a burst, at a clock that has not gone back since the last refill: one nanosecond after
-- the wait that `timeUntilAvailable` returns, the tokens asked for are available.
pub time_until-available :
    (now n : ℕ) (b : Bucket)
    → n ≤ b.burst
    → 0 < b.rate
    → b.last_refill ≤ now
    → n ≤ available_tokens (now + time_until_available now n b + 1) b
unfolding time_until_available available_tokens
time_until-available now n b h r l =
    let current = min (b.tokens + (now - b.last_refill) * b.rate) b.burst in
    elim (Bool-cases (leb n current)) [
      | inl enough ↦
          rw (enough, lapse 0)
            (wait-enough b.tokens _ b.rate b.burst n 0 h (inl (leb→le _ _ enough)))
      | inr short ↦
          rw (short, lapse ((n - current) / b.rate))
            (wait-enough b.tokens _ b.rate b.burst n ((n - current) / b.rate) h
              (inr (quotient-enough (n - current) b.rate r)))
    ]
  where
    lapse : (q : ℕ) → now + q + 1 - b.last_refill ≡ (now - b.last_refill) + (q + 1)
    lapse q = omega arith
