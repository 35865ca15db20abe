-- ===== src/Health/Threshold.antt =====
-- The thresholds of src/process_health.cpp.
use pman.Common.{
  ℕ, suc, ◌+◌, ◌≤◌, ◌<◌, ◌≡◌, ◌≢◌, refl, ap, subst, Bool, true, false, List, [], ◌∷◌, if◌then◌else◌,
  leb, ◌==◌, ◌&&◌, length, arith,
}
use pman.Health.{
  HealthStatus, healthy, unhealthy, degraded, HealthCheckConfig, MonitoredProcess, new_process,
  tally, all_passed, none_passed, some_passed, judge, check_process, checks,
}

-- A check that is passed, and one that fails altogether.
abbrev pub all_true : List Bool → Bool
all_true [] = true
all_true (b ∷ bs) = b && all_true bs

abbrev pub all_false : List Bool → Bool
all_false [] = true
all_false (true ∷ bs) = false
all_false (false ∷ bs) = all_false bs

pub tally-all_true : (bs : List Bool) → (tally bs).0 ≡ all_true bs
unfolding tally
tally-all_true [] = refl
tally-all_true (b ∷ bs) = ap (λ c. b && c) (tally-all_true bs)

pub tally-all_false : (bs : List Bool) → ((tally bs).1 == 0) ≡ all_false bs
unfolding tally
tally-all_false [] = refl
tally-all_false (true ∷ bs) = ground arith
tally-all_false (false ∷ bs) = tally-all_false bs

-- Fewer checks than a threshold do not reach it.
record IsEarly (h u n : ℕ) (m : MonitoredProcess) : Type 0 where
  healthy_at : m.config.healthy_threshold ≡ h
  unhealthy_at : m.config.unhealthy_threshold ≡ u
  successes : m.consecutive_successes ≤ n
  failures : m.consecutive_failures ≤ n
  not_healthy : n < h → m.status ≢ healthy
  not_unhealthy : n < u → m.status ≢ unhealthy

healthy-unhealthy : healthy ≢ unhealthy
healthy-unhealthy h = ground (arith, h)

unhealthy-healthy : unhealthy ≢ healthy
unhealthy-healthy h = ground (arith, h)

degraded-healthy : degraded ≢ healthy
degraded-healthy h = ground (arith, h)

degraded-unhealthy : degraded ≢ unhealthy
degraded-unhealthy h = ground (arith, h)

-- A threshold that is not reached leaves the status, and a status of another kind does no harm.
below : (a b : ℕ) (x y z : HealthStatus) → b < a → y ≢ z → (if leb a b then x else y) ≢ z
below a b x y z l k h = k (ground (arith, l, h))

other : (c : Bool) (x y z : HealthStatus) → x ≢ z → y ≢ z → (if c then x else y) ≢ z
other true x y z j k h = j h
other false x y z j k h = k h

judge-IsEarly :
    (h u n : ℕ) (b c : Bool) (m : MonitoredProcess)
    → IsEarly h u n m
    → IsEarly h u (n + 1) (judge b c m)
unfolding judge all_passed none_passed some_passed
judge-IsEarly h u n true c m e = record {
  healthy_at = e.healthy_at;
  unhealthy_at = e.unhealthy_at;
  successes = omega (arith, e.successes);
  failures = omega arith;
  not_healthy = λ l.
      below m.config.healthy_threshold (m.consecutive_successes + 1) healthy m.status healthy
        (omega (arith, l, e.healthy_at, e.successes)) (e.not_healthy (omega (arith, l)));
  not_unhealthy = λ l.
      other (leb m.config.healthy_threshold (m.consecutive_successes + 1)) healthy m.status
        unhealthy healthy-unhealthy (e.not_unhealthy (omega (arith, l)));
}
judge-IsEarly h u n false true m e = record {
  healthy_at = e.healthy_at;
  unhealthy_at = e.unhealthy_at;
  successes = omega arith;
  failures = omega (arith, e.failures);
  not_healthy = λ l.
      other (leb m.config.unhealthy_threshold (m.consecutive_failures + 1)) unhealthy m.status
        healthy unhealthy-healthy (e.not_healthy (omega (arith, l)));
  not_unhealthy = λ l.
      below m.config.unhealthy_threshold (m.consecutive_failures + 1) unhealthy m.status unhealthy
        (omega (arith, l, e.unhealthy_at, e.failures)) (e.not_unhealthy (omega (arith, l)));
}
judge-IsEarly h u n false false m e = record {
  healthy_at = e.healthy_at;
  unhealthy_at = e.unhealthy_at;
  successes = omega arith;
  failures = ground (arith, e.failures);
  not_healthy = λ l. degraded-healthy;
  not_unhealthy = λ l. degraded-unhealthy;
}

sum_suc : (n k : ℕ) → (n + 1) + k ≡ n + suc k
sum_suc n k = omega arith

checks-IsEarly :
    (h u n : ℕ) (rs : List (ℕ × List Bool)) (m : MonitoredProcess)
    → IsEarly h u n m
    → IsEarly h u (n + length rs) (checks rs m)
unfolding checks check_process
checks-IsEarly h u n [] m e = subst (λ k. IsEarly h u k m) (omega arith) e
checks-IsEarly h u n (r ∷ rs) m e =
    subst (λ k. IsEarly h u k (checks rs (check_process r.0 r.1 m))) (sum_suc n (length rs))
      (checks-IsEarly h u (n + 1) rs _ (judge-IsEarly h u n _ _ _ (checked e)))
  where
    checked : IsEarly h u n m → IsEarly h u n (record m { last_check = r.0 })
    checked e = record {
      healthy_at = e.healthy_at;
      unhealthy_at = e.unhealthy_at;
      successes = e.successes;
      failures = e.failures;
      not_healthy = e.not_healthy;
      not_unhealthy = e.not_unhealthy;
    }

new-IsEarly :
    (now pid : ℕ) (config : HealthCheckConfig)
    → IsEarly config.healthy_threshold config.unhealthy_threshold 0 (new_process now pid config)
unfolding new_process
new-IsEarly now pid config = record {
  healthy_at = refl;
  unhealthy_at = refl;
  successes = omega arith;
  failures = omega arith;
  not_healthy = λ l h. ground (arith, h);
  not_unhealthy = λ l h. ground (arith, h);
}

new_checks-IsEarly :
    (now pid : ℕ) (config : HealthCheckConfig) (rs : List (ℕ × List Bool))
    → IsEarly config.healthy_threshold config.unhealthy_threshold
        (0 + length rs)
        (checks rs (new_process now pid config))
new_checks-IsEarly now pid config rs =
    checks-IsEarly config.healthy_threshold config.unhealthy_threshold 0 rs _
      (new-IsEarly now pid config)

-- A new process is not called healthy after fewer checks than `healthyThreshold`, whatever they find.
pub checks-not_healthy :
    (now pid : ℕ) (config : HealthCheckConfig) (rs : List (ℕ × List Bool))
    → length rs < config.healthy_threshold
    → (checks rs (new_process now pid config)).status ≢ healthy
checks-not_healthy now pid config rs l =
    (new_checks-IsEarly now pid config rs).not_healthy (omega (arith, l))

-- A new process is not called unhealthy after fewer checks than `unhealthyThreshold`, whatever
-- they find.
pub checks-not_unhealthy :
    (now pid : ℕ) (config : HealthCheckConfig) (rs : List (ℕ × List Bool))
    → length rs < config.unhealthy_threshold
    → (checks rs (new_process now pid config)).status ≢ unhealthy
checks-not_unhealthy now pid config rs l =
    (new_checks-IsEarly now pid config rs).not_unhealthy (omega (arith, l))
