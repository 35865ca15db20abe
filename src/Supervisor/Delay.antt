-- ===== src/Supervisor/Delay.antt =====
-- The delay before a restart in src/process_supervisor.cpp.
use pman.Common.{ℕ, ◌+◌, ◌*◌, ◌≤◌, ◌≡◌, ◌⊎◌, ap, arith}
use pman.Common.Int.{pos}
use pman.Supervisor.Process.{Platform, RestartConfig, linear, backoff_by, calculate_restart_delay}

-- Whatever the strategy, the platform's arithmetic and a backoff of the caller's give, which may be negative:
-- the delay is never below the least one, and at most the greatest one, unless it is the least one.
pub restart_delay-bounds :
    (p : Platform) (rc : RestartConfig) (count : ℕ)
    → (rc.min_restart_delay ≤ calculate_restart_delay p rc count)
      × ((calculate_restart_delay p rc count ≤ rc.max_restart_delay)
          ⊎ (calculate_restart_delay p rc count ≡ rc.min_restart_delay))
unfolding calculate_restart_delay
restart_delay-bounds p rc count = ground arith

mul_le : (a m n : ℕ) → m ≤ n → a * m ≤ a * n
mul_le a m n h = grind (arith, h)

backoff-linear :
    (p : Platform) (rc : RestartConfig) (n : ℕ)
    → rc.backoff_strategy ≡ linear
    → backoff_by p rc rc.backoff_strategy n ≡ pos (rc.min_restart_delay + rc.linear_increment * n)
unfolding backoff_by
backoff-linear p rc n h = ap (λ st. backoff_by p rc st n) h

-- Under the linear strategy the delay does not get shorter with the number of restarts.
pub restart_delay-linear :
    (p : Platform) (rc : RestartConfig) (m n : ℕ)
    → rc.backoff_strategy ≡ linear
    → m ≤ n
    → calculate_restart_delay p rc m ≤ calculate_restart_delay p rc n
unfolding calculate_restart_delay
restart_delay-linear p rc m n h le =
    ground
      (arith, backoff-linear p rc m h, backoff-linear p rc n h, mul_le rc.linear_increment m n le)
