-- ===== src/Supervisor/Made.antt =====
-- How often the loop of src/process_supervisor.cpp starts a process again.
use pman.Common.{ℕ, ◌+◌, List, [], ◌∷◌}
use pman.Supervisor.Process.{Platform, Supervisor, find}
use pman.Supervisor.System.{Event, step}
use pman.Supervisor.Follows.{made_by}

unfoldable pub restarts_made : Platform → ℕ → List Event → Supervisor → ℕ
restarts_made p name [] v = 0
restarts_made p name (e ∷ es) v =
    made_by e (find name v.processes) (find name ((step p e v).processes))
    + restarts_made p name es (step p e v)
