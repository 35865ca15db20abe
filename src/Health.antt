-- ===== src/Health.antt =====
-- src/process_health.cpp: HealthMonitor. What the checks of a process find is an argument, one
-- Boolean for each check, and a time is the count of nanoseconds of the steady clock.
pub mod Threshold
pub mod Reached
mod Examples
use pman.Common.{
  ℕ, zero, suc, ◌+◌, ◌-◌, Bool, true, false, List, [], ◌∷◌, Option, none, some, if◌then◌else◌, ltb,
  leb, ◌==◌, ◌&&◌,
}

pub data HealthStatus : Type 0 where
  unknown : HealthStatus
  healthy : HealthStatus
  unhealthy : HealthStatus
  degraded : HealthStatus

-- `HealthCheckConfig`; the time limit of a check is never read.
pub record HealthCheckConfig : Type 0 where
  pub interval : ℕ
  pub unhealthy_threshold : ℕ
  pub healthy_threshold : ℕ

-- `MonitoredProcess` without its checks.
pub record MonitoredProcess : Type 0 where
  pub pid : ℕ
  pub config : HealthCheckConfig
  pub status : HealthStatus
  pub consecutive_failures : ℕ
  pub consecutive_successes : ℕ
  pub last_check : ℕ

-- `HealthMonitor`: the map, which has one entry for a name.
abbrev pub Monitor : Type 0
Monitor = List (ℕ × MonitoredProcess)

pub erase_name : ℕ → Monitor → Monitor
erase_name name [] = []
erase_name name (e ∷ es) = if e.0 == name then erase_name name es else e ∷ erase_name name es

-- `addProcess`
pub new_process : ℕ → ℕ → HealthCheckConfig → MonitoredProcess
new_process now pid config = record {
  pid = pid;
  config = config;
  status = unknown;
  consecutive_failures = 0;
  consecutive_successes = 0;
  last_check = now - config.interval;
}

pub add_process : ℕ → ℕ → ℕ → HealthCheckConfig → Monitor → Monitor
unfolding new_process erase_name
add_process now name pid config es = (name, new_process now pid config) ∷ erase_name name es

-- `removeProcess`
pub remove_process : ℕ → Monitor → Monitor
unfolding erase_name
remove_process name es = erase_name name es

-- `updatePid`
pub set_pid : ℕ → MonitoredProcess → MonitoredProcess
set_pid pid m = record m {
  pid = pid;
  status = unknown;
  consecutive_failures = 0;
  consecutive_successes = 0;
}

pub update_pid : ℕ → ℕ → Monitor → Monitor
unfolding set_pid
update_pid name pid [] = []
update_pid name pid (e ∷ es) =
    (if e.0 == name then (e.0, set_pid pid e.1) else e) ∷ update_pid name pid es

-- `status`
pub status : ℕ → Monitor → HealthStatus
status name [] = unknown
status name (e ∷ es) = if e.0 == name then (e.1).status else status name es

-- The loop of `checkProcess` over the checks: whether all passed, and how many did.
pub tally : List Bool → Bool × ℕ
tally [] = (true, 0)
tally (passed ∷ os) =
    let rest = tally os in (passed && rest.0, if passed then rest.1 + 1 else rest.1)

-- `checkProcess`, by branches.
pub all_passed : MonitoredProcess → MonitoredProcess
all_passed m = record m {
  consecutive_successes = m.consecutive_successes + 1;
  consecutive_failures = 0;
  status =
      if leb m.config.healthy_threshold (m.consecutive_successes + 1) then healthy else m.status;
}

pub none_passed : MonitoredProcess → MonitoredProcess
none_passed m = record m {
  consecutive_failures = m.consecutive_failures + 1;
  consecutive_successes = 0;
  status =
      if leb m.config.unhealthy_threshold (m.consecutive_failures + 1) then unhealthy else m.status;
}

pub some_passed : MonitoredProcess → MonitoredProcess
some_passed m = record m {
  consecutive_successes = 0;
  consecutive_failures = if ltb 0 m.consecutive_failures then m.consecutive_failures + 1 else 0;
  status = degraded;
}

pub judge : Bool → Bool → MonitoredProcess → MonitoredProcess
unfolding all_passed none_passed some_passed
judge true no_pass m = all_passed m
judge false true m = none_passed m
judge false false m = some_passed m

pub check_process : ℕ → List Bool → MonitoredProcess → MonitoredProcess
unfolding tally judge
check_process now outcomes m =
    judge ((tally outcomes).0) ((tally outcomes).1 == 0) (record m { last_check = now })

-- A round of `monitorLoop`: each process whose check is due is checked.
pub monitor_round : ℕ → (ℕ → List Bool) → Monitor → Monitor
unfolding check_process
monitor_round now outcomes [] = []
monitor_round now outcomes (e ∷ es) =
    (if leb ((e.1).config.interval) (now - (e.1).last_check)
      then (e.0, check_process now (outcomes e.0) e.1)
      else e)
    ∷ monitor_round now outcomes es

-- The checks of one process, one after the other, each with its time and what it found.
pub checks : List (ℕ × List Bool) → MonitoredProcess → MonitoredProcess
unfolding check_process
checks [] m = m
checks (r ∷ rs) m = checks rs (check_process r.0 r.1 m)
