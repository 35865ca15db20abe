-- ===== src/Health/Examples.antt =====
-- The health of a process of src/process_health.cpp with two checks.
use pman.Common.{ℕ, ◌≡◌, refl, Bool, true, false, List, [], ◌∷◌}
use pman.Health.{degraded, HealthCheckConfig, new_process, checks, tally, check_process}

abbrev config : HealthCheckConfig
config = record { interval = 30; unhealthy_threshold = 3; healthy_threshold = 2 }

abbrev passes : ℕ → ℕ × List Bool
passes now = (now, true ∷ true ∷ [])

abbrev fails : ℕ → ℕ × List Bool
fails now = (now, false ∷ false ∷ [])

-- One check that fails beside one that passes makes a process degraded at once.
half_passed : (checks ((40, true ∷ false ∷ []) ∷ []) (new_process 30 100 config)).status ≡ degraded
unfolding checks check_process tally new_process
half_passed = refl
