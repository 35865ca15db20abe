-- ===== src/Limiter/Bucket/Calls.antt =====
-- The rate of the token bucket of src/rate_limiter.cpp over all three of its calls.
use pman.Common.{
  ℕ, ◌+◌, ◌-◌, ◌*◌, ◌≤◌, ◌<◌, ◌≡◌, ◌≢◌, ◌∙◌, refl, ap, Bool, true, false, List, [], ◌∷◌, Option,
  none, some, if◌then◌else◌, ◌==◌, Bool-cases, inl, inr, arith,
}
use pman.Limiter.Bucket.{
  Bucket, System, step, run, take_tokens, refill, Steady, clock, Turn, Ended, acquired, timed_out,
  waiting, acquire_turns, acquire, Call, tries, acquires, tries_for, wait_time,
}
use pman.Limiter.Bucket.Rate.{step-balance}

-- The clock does not go back over the turns of a call, and over a history of calls.
abbrev pub TurnsSteady : ℕ → List Turn → Type 0
TurnsSteady last [] = Unit {0}
TurnsSteady last (t ∷ ts) =
    Steady last t.others × (clock last t.others ≤ t.now) × TurnsSteady t.now ts

abbrev pub turns_clock : ℕ → List Turn → ℕ
turns_clock last [] = last
turns_clock last (t ∷ ts) = turns_clock t.now ts

abbrev pub CallsSteady : ℕ → List Call → Type 0
CallsSteady last [] = Unit {0}
CallsSteady last (tries now n ∷ cs) = (last ≤ now) × CallsSteady now cs
CallsSteady last (acquires n ts ∷ cs) = TurnsSteady last ts × CallsSteady (turns_clock last ts) cs
CallsSteady last (tries_for deadline n ts ∷ cs) =
    TurnsSteady last ts × CallsSteady (turns_clock last ts) cs

abbrev pub calls_clock : ℕ → List Call → ℕ
calls_clock last [] = last
calls_clock last (tries now n ∷ cs) = calls_clock now cs
calls_clock last (acquires n ts ∷ cs) = calls_clock (turns_clock last ts) cs
calls_clock last (tries_for deadline n ts ∷ cs) = calls_clock (turns_clock last ts) cs

-- At a reading `now` of the clock, what was given and what is left is at most a total with what the time since
-- `from` has added.
pub record IsPaid (rate burst total from now : ℕ) (s : System) : Type 0 where
  pub rates : s.bucket.rate ≡ rate
  pub bursts : s.bucket.burst ≡ burst
  pub past : s.bucket.last_refill ≤ now
  pub begun : from ≤ s.bucket.last_refill
  pub paid : s.given + s.bucket.tokens ≤ total + (s.bucket.last_refill - from) * rate

module _ (rate burst total from : ℕ) where
  abbrev Paid : ℕ → System → Type 0
  Paid = IsPaid rate burst total from

run-burst : (s : System) (cs : List (ℕ × ℕ)) → (run s cs).bucket.burst ≡ s.bucket.burst
unfolding run
run-burst s [] = refl
run-burst s ((now, n) ∷ cs) = run-burst (step s (now, n)) cs ∙ (step-balance s now n).4

too_many : (now n : ℕ) (b : Bucket) → b.burst < n → (take_tokens now n b).0 ≡ false
unfolding take_tokens refill
too_many now n b h = ground (arith, h)

not_acquired :
    (got again : Bool) (wait : ℕ) (s' : System) (rest : Ended × System)
    → got ≡ false
    → rest.0 ≢ acquired
    → (if got then (acquired, s') else (if again then rest else (timed_out wait, s'))).0 ≢ acquired
not_acquired true again wait s' rest h r = absurd (cc (h))
not_acquired false true wait s' rest h r = r
not_acquired false false wait s' rest h r = λ e. cc (e)

turns-over_burst :
    (n : ℕ) (ts : List Turn) (s : System) → s.bucket.burst < n → (acquire_turns n ts s).0 ≢ acquired
unfolding acquire_turns
turns-over_burst n [] s h = λ e. cc (e)
turns-over_burst n (t ∷ ts) s h =
    let b = run-burst s t.others in
    let s' = step (run s t.others) (t.now, n) in
    not_acquired ((take_tokens t.now n (run s t.others).bucket).0) t.interrupted
      (wait_time n s'.bucket) s' (acquire_turns n ts s')
      (too_many t.now n (run s t.others).bucket (omega (arith, h, b)))
      (turns-over_burst n ts s' (omega (arith, h, b, (step-balance (run s t.others) t.now n).4)))

ended_of : Option (Ended × System) → Ended
ended_of none = waiting
ended_of (some r) = r.0

-- `acquire` for more than a burst never gets its tokens, whatever the clock says, whatever other threads
-- take and however its waits end.
pub acquire-over_burst :
    (n : ℕ) (ts : List Turn) (s s' : System)
    → s.bucket.burst < n
    → acquire n ts s ≢ some (acquired, s')
unfolding acquire ended_of
acquire-over_burst n ts s s' h = elim (Bool-cases (n == 0)) [
  | inl e ↦ rw e (λ k. cc (k))
  | inr e ↦ rw e (λ k. turns-over_burst n ts s h (ap (λ o. ended_of o) k))
]
