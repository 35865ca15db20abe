-- ===== src/Scope.antt =====
-- `TaskScope` of include/pman/structured.hpp: threads that are joined together, and the first exception
-- of them. A thread and an exception are numbers; what is done under one lock is one step.
pub mod Joined
mod Examples
use pman.Common.{
  ℕ, Bool, true, false, not, ◌&&◌, ◌||◌, List, [], ◌∷◌, ◌++◌, Option, none, some, if◌then◌else◌,
  ◌==◌,
}

-- `joining` is what the threads that are in `join` have taken out of `threads_`, `ended` the threads
-- whose function has ended.
pub record TaskScope : Type 0 where
  pub threads : List ℕ
  pub joining : List ℕ
  pub ended : List ℕ
  pub stop_requested : Bool
  pub exception : Option ℕ
  pub joined : Bool
  pub exception_propagated : Bool

abbrev pub new_scope : TaskScope
new_scope = record {
  threads = [];
  joining = [];
  ended = [];
  stop_requested = false;
  exception = none;
  joined = false;
  exception_propagated = false;
}

-- `spawn`; `false` is the exception of a scope that is joined.
pub spawn : ℕ → TaskScope → Bool × TaskScope
spawn thread s =
    if s.joined then (false, s) else (true, record s { threads = s.threads ++ (thread ∷ []) })

-- The function of a thread returns, or throws.
pub first_of : Option ℕ → ℕ → Option ℕ
first_of none e = some e
first_of (some e') e = some e'

pub finish : Option ℕ → TaskScope → TaskScope
unfolding first_of
finish none s = s
finish (some e) s = record s { exception = first_of s.exception e; stop_requested = true }

pub end_thread : ℕ → Option ℕ → TaskScope → TaskScope
unfolding finish
end_thread thread thrown s = finish thrown (record s { ended = thread ∷ s.ended })

-- `cancel`
pub cancel : TaskScope → TaskScope
cancel s = record s { stop_requested = true }

-- The first locked part of `join`, and its last, with the exception that it throws. Between them it
-- waits until the threads that it has taken have ended.
pub join_begin : TaskScope → TaskScope
join_begin s = record s { threads = []; joining = s.joining ++ s.threads }

pub has : ℕ → List ℕ → Bool
has x [] = false
has x (y ∷ ys) = y == x || has x ys

pub all_ended : List ℕ → List ℕ → Bool
unfolding has
all_ended [] ended = true
all_ended (t ∷ ts) ended = has t ended && all_ended ts ended

pub is_there : Option ℕ → Bool
is_there none = false
is_there (some e) = true

pub join_end : TaskScope → Option ℕ × TaskScope
unfolding is_there
join_end s = (
  if s.exception_propagated then none else s.exception,
  record s {
    exception = none;
    joined = true;
    exception_propagated = s.exception_propagated || is_there s.exception;
  },
)

-- What happens to a scope before a `join` of it is over.
pub data Step : Type 0 where
  spawned : ℕ → Step
  thread_ended : ℕ → Option ℕ → Step
  cancelled : Step
  join_began : Step

pub step : Step → TaskScope → TaskScope
unfolding spawn end_thread cancel join_begin
step (spawned t) s = (spawn t s).1
step (thread_ended t thrown) s = end_thread t thrown s
step cancelled s = cancel s
step join_began s = join_begin s

pub run : List Step → TaskScope → TaskScope
unfolding step
run [] s = s
run (x ∷ xs) s = run xs (step x s)
