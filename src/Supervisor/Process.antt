-- ===== src/Supervisor/Process.antt =====
-- The state of src/process_supervisor.cpp, the look-ups in its maps, and shouldRestart and
-- calculateRestartDelay.
use pman.Common.{
  ℕ, zero, suc, ◌+◌, ◌*◌, min, Bool, true, false, List, [], ◌∷◌, Option, none, some, if◌then◌else◌,
  ltb, ◌==◌, ◌||◌, ◌&&◌, not, length,
}
use pman.Common.Int.{ℤ, pos_part, pos, ltb_ℤ}

-- What the C++ implementation and <sys/wait.h> provide: a double is its 64 bits, `to_nanoseconds`
-- is a duration times a double, cast to a duration, and a wait status has its two macros.
pub record Platform : Type 0 where
  pub times : ℕ → ℕ → ℕ
  pub one : ℕ
  pub to_nanoseconds : ℕ → ℕ → ℤ
  pub wifexited : ℕ → Bool
  pub wexitstatus : ℕ → ℕ

pub data RestartPolicy : Type 0 where
  never : RestartPolicy
  always : RestartPolicy
  on_failure : RestartPolicy
  on_success : RestartPolicy

pub data BackoffStrategy : Type 0 where
  exponential : BackoffStrategy
  linear : BackoffStrategy
  custom : BackoffStrategy

pub record RestartConfig : Type 0 where
  pub policy : RestartPolicy
  pub backoff_strategy : BackoffStrategy
  pub min_restart_delay : ℕ
  pub max_restart_delay : ℕ
  pub backoff_multiplier : ℕ
  pub linear_increment : ℕ
  pub custom_backoff : Option (ℕ → ℤ)
  pub max_restarts : ℤ
  pub max_restart_window : ℕ
  pub max_restarts_in_window : ℤ

-- `ProcessStatus` without the name; a pid of -1 is `none`.
pub record ProcessStatus : Type 0 where
  pub pid : Option ℕ
  pub running : Bool
  pub last_exit_status : ℕ
  pub restart_count : ℕ
  pub last_start_time : ℕ
  pub last_exit_time : ℕ
  pub next_restart_delay : ℕ

-- `ProcessState`; `handle` is the pid of a handle that is valid.
pub record ProcessState : Type 0 where
  pub name : ℕ
  pub restart : RestartConfig
  pub handle : Option ℕ
  pub status : ProcessStatus
  pub restart_times : List ℕ
  pub pending_restart : Bool
  pub scheduled_restart_time : ℕ

-- `ProcessSupervisor`; the two maps are lists, and a process has its name as its key.
pub record Supervisor : Type 0 where
  pub processes : List ProcessState
  pub pid_to_name : List (ℕ × ℕ)
  pub running : Bool

-- `processes_.find`, and a change of what it found.
unfoldable pub find : ℕ → List ProcessState → Option ProcessState
find name [] = none
find name (s ∷ ss) = if s.name == name then some s else find name ss

unfoldable pub change : ℕ → (ProcessState → ProcessState) → List ProcessState → List ProcessState
change name f [] = []
change name f (s ∷ ss) = (if s.name == name then f s else s) ∷ change name f ss

-- `pidToName_.find` and `pidToName_.erase`.
unfoldable pub name_of : ℕ → List (ℕ × ℕ) → Option ℕ
name_of pid [] = none
name_of pid (e ∷ es) = if e.0 == pid then some e.1 else name_of pid es

unfoldable pub erase : ℕ → List (ℕ × ℕ) → List (ℕ × ℕ)
erase pid [] = []
erase pid (e ∷ es) = if e.0 == pid then erase pid es else e ∷ erase pid es

-- `cleanupRestartHistory`
unfoldable pub cleanup_restart_history : ℕ → List ℕ → List ℕ
cleanup_restart_history window_start [] = []
cleanup_restart_history window_start (t ∷ ts) =
    let rest = cleanup_restart_history window_start ts in
    if ltb t window_start then rest else t ∷ rest

-- The switch of `shouldRestart`.
pub policy_allows : Platform → RestartPolicy → ℕ → Bool
policy_allows p never status = false
policy_allows p always status = true
policy_allows p on_failure status = not (p.wifexited status) || not (p.wexitstatus status == 0)
policy_allows p on_success status = p.wifexited status && p.wexitstatus status == 0

-- `shouldRestart` on a state whose history is cleaned up.
unfoldable pub should_restart : Platform → ℕ → ProcessState → Bool
unfolding policy_allows
should_restart p status s =
    if not (ltb_ℤ s.restart.max_restarts (pos 0))
      && not (ltb_ℤ (pos s.status.restart_count) s.restart.max_restarts)
    then false
    else if not (ltb_ℤ (pos (length s.restart_times)) s.restart.max_restarts_in_window)
    then false
    else policy_allows p s.restart.policy status

-- The loop of the exponential strategy, and the delay before it is clamped.
pub multiplied : Platform → ℕ → ℕ → ℕ
multiplied p multiplier zero = p.one
multiplied p multiplier (suc n) = p.times (multiplied p multiplier n) multiplier

unfoldable pub backoff_by : Platform → RestartConfig → BackoffStrategy → ℕ → ℤ
unfolding multiplied
backoff_by p rc exponential count =
    p.to_nanoseconds rc.min_restart_delay (multiplied p rc.backoff_multiplier (min count 32))
backoff_by p rc linear count = pos (rc.min_restart_delay + rc.linear_increment * count)
backoff_by p rc custom count = elim rc.custom_backoff [
  | some f ↦ f count
  | none ↦ pos rc.min_restart_delay
]

-- `calculateRestartDelay`
unfoldable pub calculate_restart_delay : Platform → RestartConfig → ℕ → ℕ
unfolding backoff_by
calculate_restart_delay p rc count =
    let delay = backoff_by p rc rc.backoff_strategy count in
    let capped =
      if ltb_ℤ (pos rc.max_restart_delay) delay then pos rc.max_restart_delay else delay in
    if ltb_ℤ capped (pos rc.min_restart_delay) then rc.min_restart_delay else pos_part capped
