-- ===== src/Pool/Examples.antt =====
-- The pool of src/enhanced_thread_pool.cpp at work.
use pman.Common.{◌≤◌, ◌≡◌, refl, true, false, List, [], ◌∷◌, none, sum_by, get_or}
use pman.Common.Int.{pos}
use pman.Pool.{
  Entry, before, push, running, stopped, new, has, start, entry_of, submit_with_priority, cancel,
  cancel_all, ids, is_idle, is_cancelled, is_complete, resize, shut_down, take, begin, complete,
  update_metrics, leave, work_from, work, Step, submitted, cancelled_all, worked, step, run,
}
use pman.Pool.Balance.{times, places}
use pman.Pool.Active.{run-places, submit-completed}

methods : Unit {0}
unfolding step submit_with_priority entry_of push before cancel has cancel_all ids resize shut_down
    work work_from take begin complete leave update_metrics start new is_idle is_cancelled
    is_complete sum_by run
methods = tt

-- Two workers and three tasks; the one with the smallest number is the last.
abbrev three : List Step
three =
    submitted (pos 1) 10
    ∷ submitted (pos 100) 11
    ∷ submitted (pos 0) 12
    ∷ worked 0 20 true
    ∷ worked 0 21 true
    ∷ []

abbrev last_of_three : Entry
last_of_three = record { id = 3; priority = pos 0; sequence_number = 2; submit_time = 12 }

last_first : get_or (run three (start 2)).workers 0 stopped ≡ running last_of_three 21
unfolding methods
last_first = refl

no_workers : new 0 ≡ none
unfolding methods
no_workers = refl

shut_throws : (submit_with_priority (pos 0) 5 (shut_down (start 1))).0 ≡ none
unfolding methods
shut_throws = refl

-- What `cancelAll` drops is cancelled and never completed.
dropped :
    (is_cancelled 1 (run (submitted (pos 0) 5 ∷ cancelled_all ∷ worked 0 6 true ∷ []) (start 1))
      ≡ true)
    × (is_complete 1 (run (submitted (pos 0) 5 ∷ cancelled_all ∷ worked 0 6 true ∷ []) (start 1))
        ≡ false)
unfolding methods
dropped = (refl, refl)

-- The worker has taken the only task, and has not counted itself as active: the pool counts as idle.
idle_early : is_idle (run (submitted (pos 0) 5 ∷ worked 0 6 true ∷ []) (start 1)) ≡ true
unfolding methods
idle_early = refl

run-places_example : places 3 (run three (start 2)) ≤ 1
run-places_example = run-places 3 2 three

abbrev whole_turn : List Step
whole_turn = worked 0 6 true ∷ worked 0 7 true ∷ worked 0 8 true ∷ worked 0 9 false ∷ []

submit-completed_example :
    times
      (run [] (start 1)).next_task_id
      (run whole_turn (step (submitted (pos 4) 5) (run [] (start 1)))).completed
    ≡ 1
unfolding methods
submit-completed_example =
    submit-completed 1 5 (pos 4) [] whole_turn refl (refl, (refl, (refl, (refl, tt)))) refl refl

abbrev first : Entry
first = record { id = 1; priority = pos 1; sequence_number = 0; submit_time = 10 }

abbrev second : Entry
second = record { id = 2; priority = pos 100; sequence_number = 1; submit_time = 11 }
