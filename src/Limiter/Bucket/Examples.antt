-- ===== src/Limiter/Bucket/Examples.antt =====
-- The token bucket of src/rate_limiter.cpp on short histories: 2 tokens each nanosecond, at most 10.
use pman.Common.{
  ℕ, ◌+◌, ◌-◌, ◌*◌, ◌≤◌, ◌≡◌, ◌≢◌, true, false, refl, List, [], ◌∷◌, some, none, arith,
}
use pman.Limiter.Bucket.{
  Bucket, System, new, step, Turn, acquired, acquire, Call, tries, acquires, tries_for, calls, step,
  run, clock,
}
use pman.Limiter.Bucket.Rate.{bucket-limit}
use pman.Limiter.Bucket.Calls.{acquire-over_burst}

abbrev bucket : Bucket
bucket = record { rate = 2; burst = 10; tokens = 4; last_refill = 100 }

abbrev system : System
system = record { bucket = bucket; given = 0 }

abbrev history : List (ℕ × ℕ)
history = (102, 8) ∷ (103, 5) ∷ (106, 5) ∷ []

history_given : (run (step system (101, 6)) history).given ≡ 11
unfolding run step
history_given = refl

new_full : new 2 10 none 7 ≡ some (record { rate = 2; burst = 10; tokens = 10; last_refill = 7 })
unfolding new
new_full = refl

bucket-limit_example :
    (run (step system (101, 6)) history).given
    ≤ (step system (101, 6)).given + 10 + (clock 101 history - 101) * 2
bucket-limit_example = bucket-limit system 101 6 history (omega arith)

-- A call that waits while another thread takes the tokens, and one that times out.
abbrev waiting_calls : List Call
waiting_calls =
    tries 101 6
    ∷ acquires 5 (
        record { others = []; now = 102; later = 102; interrupted = true }
        ∷ record { others = (104, 5) ∷ []; now = 105; later = 105; interrupted = false }
        ∷ [])
    ∷ tries_for 130 4 (record { others = []; now = 110; later = 110; interrupted = true } ∷ [])
    ∷ []

waiting_calls_given : (calls waiting_calls system).given ≡ 15
unfolding calls
waiting_calls_given = refl

abbrev three_turns : List Turn
three_turns =
    record { others = []; now = 101; later = 101; interrupted = true }
    ∷ record { others = (150, 4) ∷ []; now = 200; later = 200; interrupted = true }
    ∷ record { others = []; now = 900; later = 900; interrupted = false }
    ∷ []

acquire-over_burst_example : acquire 11 three_turns system ≢ some (acquired, system)
acquire-over_burst_example = acquire-over_burst 11 three_turns system system (omega arith)
