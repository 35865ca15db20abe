-- ===== src/Scope/Examples.antt =====
-- `TaskScope` of include/pman/structured.hpp at work.
use pman.Common.{◌≡◌, refl, true, List, [], ◌∷◌, none, some}
use pman.Scope.{
  new_scope, spawn, first_of, finish, end_thread, cancel, join_begin, has, all_ended, join_end,
  is_there, Step, spawned, thread_ended, join_began, step, run,
}
use pman.Scope.Joined.{run-ended}

methods : Unit {0}
unfolding spawn first_of finish end_thread cancel join_begin has all_ended join_end is_there step
    run
methods = tt

-- The second thread throws first.
abbrev two : List Step
two = spawned 1 ∷ spawned 2 ∷ join_began ∷ thread_ended 2 (some 70) ∷ thread_ended 1 (some 71) ∷ []

first_reported : (join_end (run two new_scope)).0 ≡ some 70
unfolding methods
first_reported = refl

-- A thread that is spawned while `join` waits is left behind in a scope that counts as joined.
left_behind :
    ((join_end
        (run (spawned 1 ∷ join_began ∷ spawned 2 ∷ thread_ended 1 none ∷ []) new_scope)).1.threads
      ≡ 2 ∷ [])
    × ((join_end
          (run (spawned 1 ∷ join_began ∷ spawned 2 ∷ thread_ended 1 none ∷ []) new_scope)).1.joined
        ≡ true)
unfolding methods
left_behind = (refl, refl)

run-ended_example : has 2 (run two new_scope).ended ≡ true
unfolding methods
run-ended_example = run-ended two 2 refl refl refl
