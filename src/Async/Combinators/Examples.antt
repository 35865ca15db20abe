-- ===== src/Async/Combinators/Examples.antt =====
-- Combinators of include/pman/async/combinators.hpp at work.
use pman.Common.{ℕ, zero, suc, ◌*◌, ◌<◌, ◌≡◌, refl, true, [], ◌∷◌, none, ◌==◌, if◌then◌else◌, arith}
use pman.Async.Combinators.{
  Outcome, value, thrown, all_state, any_state, first_error, store, count_one, all_complete,
  all_run, win, any_complete, any_run, there, all_result, all_resume, winner, any_result,
  any_resume,
}
use pman.Async.Combinators.All.{is_in, all_run-resume}

methods : Unit {0}
unfolding first_error store count_one all_complete all_run win any_complete any_run there all_result
    all_resume winner any_result any_resume
methods = tt

-- Task 1 throws, the others return ten times their index.
abbrev outcome : ℕ → Outcome ℕ ℕ
outcome i = if i == 1 then thrown 99 else value (i * 10)

abbrev tens : ℕ → Outcome ℕ ℕ
tens i = value (i * 10)

every_one : (k : ℕ) → k < 3 → is_in k (2 ∷ 0 ∷ 1 ∷ []) ≡ true
every_one zero h = refl
every_one (suc zero) h = refl
every_one (suc (suc zero)) h = refl
every_one (suc (suc (suc k))) h = absurd (omega (arith, h))

all_thrown : all_resume (all_run outcome (2 ∷ 0 ∷ 1 ∷ []) (all_state 3)) ≡ thrown 99
unfolding methods
all_thrown = refl

all_returned : all_resume (all_run tens (2 ∷ 0 ∷ 1 ∷ []) (all_state 3)) ≡ value (0 ∷ 10 ∷ 20 ∷ [])
unfolding methods
all_returned = refl

-- `any` of no task reads a result that is not there.
any_of_none : any_resume {A = ℕ} {E = ℕ} any_state ≡ none
unfolding methods
any_of_none = refl

all_run-resume_example :
    ((all_run tens (2 ∷ 0 ∷ 1 ∷ []) (all_state 3)).resumed ≡ 1)
    × (all_resume (all_run tens (2 ∷ 0 ∷ 1 ∷ []) (all_state 3)) ≡ value (0 ∷ 10 ∷ 20 ∷ []))
all_run-resume_example = all_run-resume tens 3 (2 ∷ 0 ∷ 1 ∷ []) (omega arith) refl every_one
