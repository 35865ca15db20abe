-- ===== src/Scope/Joined.antt =====
-- What `join` of include/pman/structured.hpp reports, and for which threads it has waited.
use pman.Common.{
  ℕ, ◌≡◌, refl, subst, sym, ap, ◌∙◌, Bool, true, false, ◌||◌, List, [], ◌∷◌, ◌++◌, Option, none,
  some, if◌then◌else◌, ◌==◌, Bool-cases, inl, inr, arith,
}
use pman.Scope.{
  TaskScope, new_scope, spawn, first_of, finish, end_thread, cancel, join_begin, has, all_ended,
  join_end, is_there, Step, spawned, thread_ended, cancelled, join_began, step, run,
}

-- The first exception of the steps, and whether one of them asks the threads to stop.
abbrev pub or_else : Option ℕ → Option ℕ → Option ℕ
or_else none o = o
or_else (some e) o = some e

abbrev thrown_by : Step → Option ℕ
thrown_by (spawned t) = none
thrown_by (thread_ended t o) = o
thrown_by cancelled = none
thrown_by join_began = none

abbrev stops_by : Step → Bool
stops_by (spawned t) = false
stops_by (thread_ended t none) = false
stops_by (thread_ended t (some e)) = true
stops_by cancelled = true
stops_by join_began = false

abbrev pub first_thrown : List Step → Option ℕ
first_thrown [] = none
first_thrown (x ∷ xs) = or_else (thrown_by x) (first_thrown xs)

abbrev pub stops : List Step → Bool
stops [] = false
stops (x ∷ xs) = stops_by x || stops xs

first_of-or_else : (o : Option ℕ) (e : ℕ) → first_of o e ≡ or_else o (some e)
unfolding first_of
first_of-or_else none e = refl
first_of-or_else (some e') e = refl

or_else-none : (o : Option ℕ) → o ≡ or_else o none
or_else-none none = refl
or_else-none (some e) = refl

or_else_assoc : (a b c : Option ℕ) → or_else (or_else a b) c ≡ or_else a (or_else b c)
or_else_assoc none b c = refl
or_else_assoc (some e) b c = refl

module _ (s : TaskScope) where
  step-exception : (x : Step) → (step x s).exception ≡ or_else s.exception (thrown_by x)
  unfolding step spawn end_thread finish cancel join_begin
  step-exception (spawned t) = elim (Bool-cases s.joined) [
    | inl u ↦ rw u (or_else-none s.exception)
    | inr u ↦ rw u (or_else-none s.exception)
  ]
  step-exception (thread_ended t none) = or_else-none s.exception
  step-exception (thread_ended t (some e)) = first_of-or_else s.exception e
  step-exception cancelled = or_else-none s.exception
  step-exception join_began = or_else-none s.exception

  step-stop_requested : (x : Step) → (step x s).stop_requested ≡ (s.stop_requested || stops_by x)
  unfolding step spawn end_thread finish cancel join_begin
  step-stop_requested (spawned t) = elim (Bool-cases s.joined) [
    | inl u ↦ rw u (ground arith)
    | inr u ↦ rw u (ground arith)
  ]
  step-stop_requested (thread_ended t none) = ground arith
  step-stop_requested (thread_ended t (some e)) = ground arith
  step-stop_requested cancelled = ground arith
  step-stop_requested join_began = ground arith

  step-flags :
      (x : Step)
      → ((step x s).joined ≡ s.joined) × ((step x s).exception_propagated ≡ s.exception_propagated)
  unfolding step spawn end_thread finish cancel join_begin
  step-flags (spawned t) = elim (Bool-cases s.joined) [
    | inl u ↦ rw u (refl, refl)
    | inr u ↦ rw u (refl, refl)
  ]
  step-flags (thread_ended t none) = (refl, refl)
  step-flags (thread_ended t (some e)) = (refl, refl)
  step-flags cancelled = (refl, refl)
  step-flags join_began = (refl, refl)

run-exception :
    (xs : List Step) (s : TaskScope) → (run xs s).exception ≡ or_else s.exception (first_thrown xs)
unfolding run
run-exception [] s = or_else-none s.exception
run-exception (x ∷ xs) s =
    run-exception xs (step x s)
    ∙ ap (λ o. or_else o (first_thrown xs)) (step-exception s x)
    ∙ or_else_assoc s.exception (thrown_by x) (first_thrown xs)

run-stop_requested :
    (xs : List Step) (s : TaskScope) → (run xs s).stop_requested ≡ (s.stop_requested || stops xs)
unfolding run
run-stop_requested [] s = ground arith
run-stop_requested (x ∷ xs) s =
    let ih = run-stop_requested xs (step x s) in
    let e = step-stop_requested s x in ground (arith, ih, e)

run-flags :
    (xs : List Step) (s : TaskScope)
    → ((run xs s).joined ≡ s.joined) × ((run xs s).exception_propagated ≡ s.exception_propagated)
unfolding run
run-flags [] s = (refl, refl)
run-flags (x ∷ xs) s =
    let ih = run-flags xs (step x s) in let e = step-flags s x in (ih.0 ∙ e.0, ih.1 ∙ e.1)

-- Whatever threads are spawned and end before the end of a first `join`, it throws the first exception of
-- them, or none if there is none; the threads are asked to stop if and only if one has thrown or `cancel` was
-- called. After it a `join` throws nothing, and `spawn` is refused.
pub run-join :
    (xs : List Step) (t : ℕ)
    → ((join_end (run xs new_scope)).0 ≡ first_thrown xs)
      × ((run xs new_scope).stop_requested ≡ stops xs)
      × ((join_end (join_end (run xs new_scope)).1).0 ≡ none)
      × ((spawn t (join_end (run xs new_scope)).1).0 ≡ false)
unfolding join_end spawn
run-join xs t =
    let s = run xs new_scope in
    let flags = run-flags xs new_scope in
    let first : (if s.exception_propagated then none else s.exception) ≡ first_thrown xs =
      rw flags.1 (run-exception xs new_scope) in
    (
      first,
      run-stop_requested xs new_scope,
      if_none (s.exception_propagated || is_there s.exception),
      refl,
    )
  where
    if_none : (b : Bool) → ◌≡◌ {A = Option ℕ} (if b then none else none) none
    if_none b = elim (Bool-cases b) [ inl t ↦ rw t refl | inr t ↦ rw t refl ]

-- A thread that the scope has.
abbrev held : ℕ → TaskScope → Bool
held t s = has t s.threads || has t s.joining

abbrev pub spawns : ℕ → List Step → Bool
spawns t [] = false
spawns t (spawned t' ∷ xs) = t' == t || spawns t xs
spawns t (thread_ended t' o ∷ xs) = spawns t xs
spawns t (cancelled ∷ xs) = spawns t xs
spawns t (join_began ∷ xs) = spawns t xs

has-append : (t : ℕ) (xs ys : List ℕ) → has t (xs ++ ys) ≡ (has t xs || has t ys)
unfolding has
has-append t [] ys = ground arith
has-append t (x ∷ xs) ys = let ih = has-append t xs ys in ground (arith, ih)

module _ (t : ℕ) (s : TaskScope) (open_ : s.joined ≡ false) where
  step-held : (x : Step) → held t s ≡ true → held t (step x s) ≡ true
  unfolding step spawn end_thread finish cancel join_begin
  step-held (spawned t') h = rw open_ (ground (arith, h, has-append t s.threads (t' ∷ [])))
  step-held (thread_ended t' none) h = h
  step-held (thread_ended t' (some e)) h = h
  step-held cancelled h = h
  step-held join_began h = unfold has in ground (arith, h, has-append t s.joining s.threads)

  spawn-held : held t (step (spawned t) s) ≡ true
  unfolding step spawn has
  spawn-held = rw open_ (ground (arith, has-append t s.threads (t ∷ [])))

run-held :
    (t : ℕ) (xs : List Step) (s : TaskScope)
    → s.joined ≡ false
    → held t s ≡ true
    → held t (run xs s) ≡ true
unfolding run
run-held t [] s o h = h
run-held t (x ∷ xs) s o h = run-held t xs (step x s) ((step-flags s x).0 ∙ o) (step-held t s o x h)

run-spawned :
    (t : ℕ) (xs : List Step) (s : TaskScope)
    → s.joined ≡ false
    → spawns t xs ≡ true
    → held t (run xs s) ≡ true
unfolding run
run-spawned t [] s o h = absurd (ground (arith, h))
run-spawned t (spawned t' ∷ xs) s o h =
    let o' = (step-flags s (spawned t')).0 ∙ o in
    elim (Bool-cases (t' == t)) [
      | inl u ↦
          let e : t' ≡ t = ground (arith, u) in
          run-held t xs (step (spawned t') s) o'
            (subst (λ k. held t (step (spawned k) s) ≡ true) (sym e) (spawn-held t s o))
      | inr u ↦ run-spawned t xs (step (spawned t') s) o' (ground (arith, h, u))
    ]
run-spawned t (thread_ended t' c ∷ xs) s o h =
    run-spawned t xs (step (thread_ended t' c) s) ((step-flags s (thread_ended t' c)).0 ∙ o) h
run-spawned t (cancelled ∷ xs) s o h =
    run-spawned t xs (step cancelled s) ((step-flags s cancelled).0 ∙ o) h
run-spawned t (join_began ∷ xs) s o h =
    run-spawned t xs (step join_began s) ((step-flags s join_began).0 ∙ o) h

all_ended-has :
    (t : ℕ) (ts ended : List ℕ) → all_ended ts ended ≡ true → has t ts ≡ true → has t ended ≡ true
unfolding all_ended has
all_ended-has t [] ended a h = absurd (ground (arith, h))
all_ended-has t (x ∷ ts) ended a h = elim (Bool-cases (x == t)) [
  | inl u ↦
      let e : x ≡ t = ground (arith, u) in subst (λ k. has k ended ≡ true) e (ground (arith, a))
  | inr u ↦ all_ended-has t ts ended (ground (arith, a)) (ground (arith, h, u))
]

-- When the threads that `join` has taken have ended, and none was spawned after it had taken them, then
-- every thread that was ever spawned has ended.
pub run-ended :
    (xs : List Step) (t : ℕ)
    → spawns t xs ≡ true
    → (run xs new_scope).threads ≡ []
    → all_ended (run xs new_scope).joining (run xs new_scope).ended ≡ true
    → has t (run xs new_scope).ended ≡ true
run-ended xs t h none_left waited =
    let s = run xs new_scope in
    let in_scope = run-spawned t xs new_scope refl h in
    let none_here : has t s.threads ≡ false = ap (has t) none_left ∙ (unfold has in refl) in
    all_ended-has t s.joining s.ended waited (ground (arith, in_scope, none_here))
