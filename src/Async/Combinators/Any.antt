-- ===== src/Async/Combinators/Any.antt =====
-- What `any` of include/pman/async/combinators.hpp gives.
use pman.Common.{ℕ, ◌≡◌, refl, ap, ◌∙◌, true, List, [], ◌∷◌, some}
use pman.Async.Combinators.{
  Outcome, value, thrown, AnyState, any_state, win, any_complete, any_run, winner, any_result,
  any_resume,
}

module _ {ℓ κ} {A : Type ℓ} {E : Type κ} where
  -- A task with its index, or what it has thrown.
  abbrev pub with_index : ℕ → Outcome A E → Outcome (ℕ × A) E
  with_index i (value a) = value (i, a)
  with_index i (thrown e) = thrown e

  win-finished : (i : ℕ) (o : Outcome A E) (s : AnyState A E) → (win i o s).finished ≡ true
  unfolding win
  win-finished i (value a) s = refl
  win-finished i (thrown e) s = refl

  module _ (f : ℕ → Outcome A E) where
    -- Once a task has won, the others change nothing.
    any_run-finished :
        (order : List ℕ) (s : AnyState A E) → s.finished ≡ true → any_run f order s ≡ s
    unfolding any_run any_complete
    any_run-finished [] s h = refl
    any_run-finished (i ∷ order) s h = ap (any_run f order) stays ∙ any_run-finished order s h
      where
        stays : any_complete i (f i) s ≡ s
        stays = rw h refl

  winner-result :
      (i : ℕ) (o : Outcome A E)
      → (any_resume (win i o any_state) ≡ some (with_index i o)) × ((win i o any_state).resumed ≡ 1)
  unfolding any_resume any_result win winner
  winner-result i (value a) = (refl, refl)
  winner-result i (thrown e) = (refl, refl)

-- Whatever the order in which the tasks complete, and although some may never complete, `any` calls its
-- continuation once, and gives what the first of them has returned, with its index, or has thrown.
pub any_run-resume {ℓ κ} :
    {A : Type ℓ} {E : Type κ} (f : ℕ → Outcome A E) (i : ℕ) (order : List ℕ)
    → (any_resume (any_run f (i ∷ order) any_state) ≡ some (with_index i (f i)))
      × ((any_run f (i ∷ order) any_state).resumed ≡ 1)
unfolding any_run any_complete
any_run-resume f i order =
    let won = any_run-finished f order (win i (f i) any_state) (win-finished i (f i) any_state) in
    let r = winner-result i (f i) in (ap any_resume won ∙ r.0, ap (λ s. s.resumed) won ∙ r.1)
