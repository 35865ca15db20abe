-- ===== src/Limiter/Window/Examples.antt =====
-- The sliding window of src/rate_limiter.cpp on short histories.
use pman.Common.{ℕ, ◌≤◌, true, false, ◌≡◌, refl, List, [], ◌∷◌, none, arith}
use pman.Limiter.Window.{
  new, time_until_reset, start, step, run, Call, tries, acquires, tries_for, calls,
}
use pman.Limiter.Window.Limit.{count_in, window-limit}

-- Two requests in 10 ns; the third call is refused, and the fourth comes when the first has expired.
abbrev history : List (ℕ × ℕ)
history = (1, 1) ∷ (3, 4) ∷ (5, 5) ∷ (12, 12) ∷ []

history_granted : (run (start 2 10) history).granted ≡ 1 ∷ 4 ∷ 12 ∷ []
unfolding run step
history_granted = refl

new_invalid : new 0 10 ≡ none
unfolding new
new_invalid = refl

reset_time :
    time_until_reset 13 (record { max_requests = 2; duration = 10; timestamps = 1 ∷ 4 ∷ [] }) ≡ 1
unfolding time_until_reset
reset_time = refl

window-limit_example : count_in 10 1 (run (start 2 10) history).granted ≤ 2
window-limit_example = window-limit 2 10 1 history (omega arith)

-- A third request waits: other threads take the first place that comes free, and its second wait times out.
abbrev waiting_calls : List Call
waiting_calls =
    tries 1 1
    ∷ tries 3 4
    ∷ acquires (
        record { others = []; now = 5; stamp = 5; later = 6; interrupted = true }
        ∷ record { others = (12, 12) ∷ []; now = 13; stamp = 13; later = 13; interrupted = false }
        ∷ [])
    ∷ tries_for 14
        (record { others = []; now = 13; stamp = 13; later = 14; interrupted = true } ∷ [])
    ∷ tries_for 20
        (record { others = []; now = 15; stamp = 16; later = 16; interrupted = true } ∷ [])
    ∷ []

waiting_calls_granted : (calls waiting_calls (start 2 10)).granted ≡ 1 ∷ 4 ∷ 12 ∷ 16 ∷ []
unfolding calls
waiting_calls_granted = refl
