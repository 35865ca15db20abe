-- ===== src/Health/Reached.antt =====
-- What a row of equal checks comes to in src/process_health.cpp.
use pman.Common.{
  ℕ, ◌+◌, ◌≤◌, ◌≡◌, refl, ap, ◌∙◌, Bool, true, false, List, [], ◌∷◌, if◌then◌else◌, leb, All,
  length, arith,
}
use pman.Health.{
  HealthStatus, healthy, unhealthy, MonitoredProcess, all_passed, none_passed, judge, check_process,
  checks,
}
use pman.Health.Threshold.{all_true, all_false, tally-all_true, tally-all_false}

passed_check :
    (now : ℕ) (bs : List Bool) (m : MonitoredProcess)
    → all_true bs ≡ true
    → check_process now bs m ≡ all_passed (record m { last_check = now })
unfolding check_process judge
passed_check now bs m h = rw (tally-all_true bs, h) refl

reaches : (a b : ℕ) (x y : HealthStatus) → a ≤ b → (if leb a b then x else y) ≡ x
reaches a b x y l = ground (arith, l)

passed_checks :
    (r : ℕ × List Bool) (rs : List (ℕ × List Bool)) (m : MonitoredProcess)
    → m.config.healthy_threshold ≤ m.consecutive_successes + length (r ∷ rs)
    → All (λ r. all_true r.1 ≡ true) (r ∷ rs)
    → (checks (r ∷ rs) m).status ≡ healthy
unfolding checks all_passed
passed_checks r [] m l p =
    ap (λ x. x.status) (passed_check r.0 r.1 m p.0)
    ∙ reaches _ _ healthy m.status (omega (arith, l))
passed_checks r (r' ∷ rs) m l p =
    ap (λ x. (checks (r' ∷ rs) x).status) (passed_check r.0 r.1 m p.0)
    ∙ passed_checks r' rs (all_passed (record m { last_check = r.0 })) (omega (arith, l)) p.1

failed_check :
    (now : ℕ) (bs : List Bool) (m : MonitoredProcess)
    → all_true bs ≡ false
    → all_false bs ≡ true
    → check_process now bs m ≡ none_passed (record m { last_check = now })
unfolding check_process judge
failed_check now bs m h k = rw (tally-all_true bs, h, tally-all_false bs, k) refl

failed_checks :
    (r : ℕ × List Bool) (rs : List (ℕ × List Bool)) (m : MonitoredProcess)
    → m.config.unhealthy_threshold ≤ m.consecutive_failures + length (r ∷ rs)
    → All (λ r. (all_true r.1 ≡ false) × (all_false r.1 ≡ true)) (r ∷ rs)
    → (checks (r ∷ rs) m).status ≡ unhealthy
unfolding checks none_passed
failed_checks r [] m l p =
    ap (λ x. x.status) (failed_check r.0 r.1 m p.0.0 p.0.1)
    ∙ reaches _ _ unhealthy m.status (omega (arith, l))
failed_checks r (r' ∷ rs) m l p =
    ap (λ x. (checks (r' ∷ rs) x).status) (failed_check r.0 r.1 m p.0.0 p.0.1)
    ∙ failed_checks r' rs (none_passed (record m { last_check = r.0 })) (omega (arith, l)) p.1

-- After as many rounds in a row as `healthyThreshold`, one or more, in each of which all checks
-- pass, a process is healthy, in whatever state it was before.
pub checks-healthy :
    (r : ℕ × List Bool) (rs : List (ℕ × List Bool)) (m : MonitoredProcess)
    → m.config.healthy_threshold ≤ length (r ∷ rs)
    → All (λ r. all_true r.1 ≡ true) (r ∷ rs)
    → (checks (r ∷ rs) m).status ≡ healthy
checks-healthy r rs m l p = passed_checks r rs m (omega (arith, l)) p

-- After as many rounds in a row as `unhealthyThreshold`, one or more, in each of which there are
-- checks and none passes, a process is unhealthy, in whatever state it was before.
pub checks-unhealthy :
    (r : ℕ × List Bool) (rs : List (ℕ × List Bool)) (m : MonitoredProcess)
    → m.config.unhealthy_threshold ≤ length (r ∷ rs)
    → All (λ r. (all_true r.1 ≡ false) × (all_false r.1 ≡ true)) (r ∷ rs)
    → (checks (r ∷ rs) m).status ≡ unhealthy
checks-unhealthy r rs m l p = failed_checks r rs m (omega (arith, l)) p
