-- ===== src/Limiter/Bucket.antt =====
-- `TokenBucketRateLimiter` of src/rate_limiter.cpp. The source counts tokens in doubles; here a
-- count is a whole number of 1e-9 tokens, so that a rate of `r` tokens a second adds `r` of them
-- each nanosecond: the arithmetic is the source's wherever a double holds the values exactly.
pub mod Rate
pub mod Calls
mod Examples
use pman.Common.{
  ℕ, ◌+◌, ◌-◌, ◌*◌, ◌/◌, Bool, true, false, List, [], ◌∷◌, Option, none, some, if◌then◌else◌, ltb,
  leb, ◌==◌, ◌≤◌, min,
}

-- The configuration, the tokens and the time of the last refill.
pub record Bucket : Type 0 where
  pub rate : ℕ
  pub burst : ℕ
  pub tokens : ℕ
  pub last_refill : ℕ

-- The constructor; the outer `none` is `std::invalid_argument`, a negative `initialTokens` is `none`.
pub new : ℕ → ℕ → Option ℕ → ℕ → Option Bucket
new rate burst initial now =
    if rate == 0
    then none
    else (if burst == 0
        then none
        else some (record {
          rate = rate;
          burst = burst;
          tokens = elim initial [ none ↦ burst | some n ↦ n ];
          last_refill = now;
        }))

-- `refill`
pub refill : ℕ → Bucket → Bucket
refill now b = record b {
  tokens = min (b.tokens + (now - b.last_refill) * b.rate) b.burst;
  last_refill = now;
}

-- The body that `tryAcquire` and a turn of `acquire` or `tryAcquireFor` share.
pub take_tokens : ℕ → ℕ → Bucket → Bool × Bucket
unfolding refill
take_tokens now n b =
    let b' = refill now b in
    if leb n b'.tokens then (true, record b' { tokens = b'.tokens - n }) else (false, b')

-- `tryAcquire`; `none` is `std::invalid_argument`.
pub try_acquire : ℕ → ℕ → Bucket → Option (Bool × Bucket)
unfolding take_tokens
try_acquire now n b = if n == 0 then none else some (take_tokens now n b)

-- `availableTokens`
pub available_tokens : ℕ → Bucket → ℕ
available_tokens now b = min (b.tokens + (now - b.last_refill) * b.rate) b.burst

-- `timeUntilAvailable`, in nanoseconds: the cast to nanoseconds drops the fraction.
pub time_until_available : ℕ → ℕ → Bucket → ℕ
time_until_available now n b =
    let current = min (b.tokens + (now - b.last_refill) * b.rate) b.burst in
    if leb n current then 0 else (n - current) / b.rate

-- A bucket with the tokens that it has given out; a history lists the calls of `tryAcquire` with
-- the reading of the clock and the number of tokens.
pub record System : Type 0 where
  pub bucket : Bucket
  pub given : ℕ

pub step : System → ℕ × ℕ → System
unfolding take_tokens
step s (now, n) =
    let (ok, b) = take_tokens now n s.bucket in
    record { bucket = b; given = (if ok then s.given + n else s.given) }

pub run : System → List (ℕ × ℕ) → System
run s [] = s
run s (c ∷ cs) = run (step s c) cs

-- The clock does not go back over the history, which starts at time `t`.
abbrev pub Steady : ℕ → List (ℕ × ℕ) → Type 0
Steady t [] = Unit {0}
Steady t ((now, n) ∷ cs) = (t ≤ now) × Steady now cs

-- The clock after the history.
abbrev pub clock : ℕ → List (ℕ × ℕ) → ℕ
clock t [] = t
clock t ((now, n) ∷ cs) = clock now cs

-- One turn of the loop of `acquire` or `tryAcquireFor`: the attempts of other threads before it, which had the
-- mutex meanwhile, its reading of the clock, the reading that follows a refusal, and whether a signal
-- interrupts the wait. A wait that is not interrupted times out, since nothing notifies `cv_`.
pub record Turn : Type 0 where
  pub others : List (ℕ × ℕ)
  pub now : ℕ
  pub later : ℕ
  pub interrupted : Bool

-- How a call ends: with the tokens, with false, by the `std::system_error` that `FutexCondVar::wait_for` throws
-- after a wait of the given length has timed out, or not within the turns given.
pub data Ended : Type 0 where
  acquired : Ended
  refused : Ended
  timed_out : ℕ → Ended
  waiting : Ended

-- How long the calls wait, the second no longer than to its deadline.
pub wait_time : ℕ → Bucket → ℕ
wait_time n b = (n - b.tokens) / b.rate

pub wait_before : ℕ → ℕ → ℕ → Bucket → ℕ
unfolding wait_time
wait_before deadline now n b =
    if ltb (deadline - now) (wait_time n b) then deadline - now else wait_time n b

pub acquire_turns : ℕ → List Turn → System → Ended × System
unfolding run step wait_time
acquire_turns n [] s = (waiting, s)
acquire_turns n (t ∷ ts) s =
    let before = run s t.others in
    let after = step before (t.now, n) in
    let rest = acquire_turns n ts after in
    if (take_tokens t.now n before.bucket).0
    then (acquired, after)
    else (if t.interrupted then rest else (timed_out (wait_time n after.bucket), after))

-- `acquire`; `none` is `std::invalid_argument`.
pub acquire : ℕ → List Turn → System → Option (Ended × System)
unfolding acquire_turns
acquire n ts s = if n == 0 then none else some (acquire_turns n ts s)

-- `tryAcquireFor`, of a number of tokens that is not negative.
pub try_acquire_for : ℕ → ℕ → List Turn → System → Ended × System
unfolding run step wait_before
try_acquire_for deadline n [] s = (waiting, s)
try_acquire_for deadline n (t ∷ ts) s =
    let before = run s t.others in
    let after = step before (t.now, n) in
    let rest = try_acquire_for deadline n ts after in
    if (take_tokens t.now n before.bucket).0
    then (acquired, after)
    else if leb deadline t.later
    then (refused, after)
    else if t.interrupted
    then rest
    else (timed_out (wait_before deadline t.later n after.bucket), after)

-- Any of the three calls; the deadline of `tryAcquireFor` is `now() + timeout`.
pub data Call : Type 0 where
  tries : ℕ → ℕ → Call
  acquires : ℕ → List Turn → Call
  tries_for : ℕ → ℕ → List Turn → Call

abbrev pub or_same : System → Option (Ended × System) → System
or_same s none = s
or_same s (some r) = r.1

pub call : Call → System → System
unfolding step acquire try_acquire_for
call (tries now n) s = if n == 0 then s else step s (now, n)
call (acquires n ts) s = or_same s (acquire n ts s)
call (tries_for deadline n ts) s = (try_acquire_for deadline n ts s).1

pub calls : List Call → System → System
unfolding call
calls [] s = s
calls (c ∷ cs) s = calls cs (call c s)
