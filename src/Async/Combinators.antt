-- ===== src/Async/Combinators.antt =====
-- include/pman/async/combinators.hpp: `all` and `any` of tasks. A task is its index; what it returns or
-- throws is an argument, and so is the order in which the tasks complete.
pub mod All
pub mod Any
mod Examples
use pman.Common.{
  ℕ, zero, suc, ◌+◌, Bool, true, false, List, [], ◌∷◌, Option, none, some, if◌then◌else◌, ◌==◌,
  modify, replicate,
}

-- How a task ends, and what `await_resume` gives.
pub data Outcome {ℓ κ} (A : Type ℓ) (E : Type κ) : Type (ℓ ⊔ κ) where
  value : A → Outcome A E
  thrown : E → Outcome A E

-- `AllState`, with the number of calls of its continuation.
pub record AllState {ℓ κ} (A : Type ℓ) (E : Type κ) : Type (ℓ ⊔ κ) where
  pub completed : ℕ
  pub results : List (Option A)
  pub error : Option E
  pub total : ℕ
  pub resumed : ℕ

-- `AnyState`, with the number of calls of its continuation.
pub record AnyState {ℓ κ} (A : Type ℓ) (E : Type κ) : Type (ℓ ⊔ κ) where
  pub finished : Bool
  pub winner_index : Option ℕ
  pub result : Option A
  pub error : Option E
  pub resumed : ℕ

-- Only the first exception is kept.
pub first_error {ℓ} : {E : Type ℓ} → Option E → E → Option E
first_error none e = some e
first_error (some e') e = some e'

module _ {ℓ κ} {A : Type ℓ} {E : Type κ} where
  abbrev pub all_state : ℕ → AllState A E
  all_state n = record {
    completed = 0;
    results = replicate n none;
    error = none;
    total = n;
    resumed = 0;
  }

  pub store : ℕ → Outcome A E → AllState A E → AllState A E
  unfolding first_error
  store i (value a) s = record s { results = modify i (λ x. some a) s.results }
  store i (thrown e) s = record s { error = first_error s.error e }

  pub count_one : AllState A E → AllState A E
  count_one s =
      let s' : AllState A E = record s { completed = s.completed + 1 } in
      if s.completed + 1 == s.total then record s' { resumed = s.resumed + 1 } else s'

  -- The wrapper of a task of `all`.
  pub all_complete : ℕ → Outcome A E → AllState A E → AllState A E
  unfolding store count_one
  all_complete i o s = count_one (store i o s)

  pub all_run : (ℕ → Outcome A E) → List ℕ → AllState A E → AllState A E
  unfolding all_complete
  all_run outcome [] s = s
  all_run outcome (i ∷ order) s = all_run outcome order (all_complete i (outcome i) s)

  abbrev pub any_state : AnyState A E
  any_state = record {
    finished = false;
    winner_index = none;
    result = none;
    error = none;
    resumed = 0;
  }

  -- The wrapper of a task of `any`.
  pub win : ℕ → Outcome A E → AnyState A E → AnyState A E
  win i (value a) s = record s {
    finished = true;
    winner_index = some i;
    result = some a;
    resumed = s.resumed + 1;
  }
  win i (thrown e) s = record s { finished = true; error = some e; resumed = s.resumed + 1 }

  pub any_complete : ℕ → Outcome A E → AnyState A E → AnyState A E
  unfolding win
  any_complete i o s = if s.finished then s else win i o s

  pub any_run : (ℕ → Outcome A E) → List ℕ → AnyState A E → AnyState A E
  unfolding any_complete
  any_run outcome [] s = s
  any_run outcome (i ∷ order) s = any_run outcome order (any_complete i (outcome i) s)

-- The results that are there, in the order of the tasks.
pub there {ℓ} : {A : Type ℓ} → List (Option A) → List A
there [] = []
there (none ∷ xs) = there xs
there (some a ∷ xs) = a ∷ there xs

-- `await_resume` of `all`
pub all_result {ℓ κ} : {A : Type ℓ} {E : Type κ} → Option E → List (Option A) → Outcome (List A) E
unfolding there
all_result none results = value (there results)
all_result (some e) results = thrown e

pub all_resume {ℓ κ} : {A : Type ℓ} {E : Type κ} → AllState A E → Outcome (List A) E
unfolding all_result
all_resume s = all_result s.error s.results

-- `await_resume` of `any`; `none` where it reads a result that is not there.
pub winner {ℓ} : {A : Type ℓ} → Option ℕ → A → ℕ × A
winner none a = (0, a)
winner (some i) a = (i, a)

pub any_result {ℓ κ} :
    {A : Type ℓ} {E : Type κ} → Option E → Option ℕ → Option A → Option (Outcome (ℕ × A) E)
unfolding winner
any_result (some e) i result = some (thrown e)
any_result none i none = none
any_result none i (some a) = some (value (winner i a))

pub any_resume {ℓ κ} : {A : Type ℓ} {E : Type κ} → AnyState A E → Option (Outcome (ℕ × A) E)
unfolding any_result
any_resume s = any_result s.error s.winner_index s.result
