-- ===== src/Sync/Mutex/Sleep.antt =====
-- The sleepers of `FutexMutex` of src/futex.cpp.
use pman.Common.{
  ℕ, zero, suc, ◌+◌, ◌≤◌, ◌≡◌, ◌≢◌, ◌⊎◌, refl, ◌∙◌, true, List, [], ◌∷◌, Option, none, some, ◌==◌,
  length, length-replicate, sum_by, sum_by-replicate, Bool-cases, inl, inr, arith,
}
use pman.Sync.Threads.{get_elem?, set, sum_by-set, sum_by-le, length-set}
use pman.Sync.Mutex.{
  Pc, outside, spinning, trying, contending, waiting, asleep, holding, waking, Event, lock,
  try_lock, unlock, go, interrupted, go_on, call_lock, call_try_lock, call_unlock, interrupt, move,
  Mutex, start, sleeps, wake_up, wakes, Step, moved, woke, move_found, step, run, spins, unlocked,
  contended,
}
use pman.Sync.Mutex.Exclusion.{sum_by-woke, wakes-waking}

abbrev pub is_asleep : Pc → ℕ
is_asleep asleep = 1
is_asleep outside = 0
is_asleep (spinning n) = 0
is_asleep (trying n) = 0
is_asleep contending = 0
is_asleep waiting = 0
is_asleep holding = 0
is_asleep waking = 0

abbrev pub is_waking : Pc → ℕ
is_waking waking = 1
is_waking outside = 0
is_waking (spinning n) = 0
is_waking (trying n) = 0
is_waking contending = 0
is_waking waiting = 0
is_waking asleep = 0
is_waking holding = 0

-- What the program relies on: `FUTEX_WAKE` wakes a thread that sleeps, if there is one.
abbrev pub IsKernel : (List Pc → ℕ) → Type 0
IsKernel pick = (ps : List Pc) → sum_by is_asleep ps ≢ 0 → sleeps (get_elem? ps (pick ps)) ≡ true

-- An instruction leaves the word contended, or will wake someone, or neither puts its thread to sleep nor
-- takes `Contended` away.
abbrev Quiet : ℕ → Pc → ℕ × Pc → Type 0
Quiet state p r =
    (r.0 ≡ contended)
    ⊎ (is_waking r.1 ≡ 1)
    ⊎ ((is_asleep r.1 ≤ is_asleep p) × (is_waking p ≤ is_waking r.1) × (state ≢ contended))

go_on-Quiet : (state : ℕ) (p : Pc) → Quiet state p (go_on state p)
unfolding go_on
go_on-Quiet state outside = ground arith
go_on-Quiet state (spinning zero) = ground arith
go_on-Quiet state (spinning (suc n)) = elim (Bool-cases (state == unlocked)) [
  | inl t ↦ rw t (ground (arith, t))
  | inr t ↦ rw t (ground arith)
]
go_on-Quiet state (trying n) = ground arith
go_on-Quiet state contending = ground arith
go_on-Quiet state waiting = ground arith
go_on-Quiet state asleep = ground arith
go_on-Quiet state holding = ground arith
go_on-Quiet state waking = ground arith

move-Quiet : (e : Event) (state : ℕ) (p : Pc) → Quiet state p (move e state p)
unfolding move call_lock call_try_lock call_unlock interrupt
move-Quiet lock state outside = ground arith
move-Quiet lock state p = ground arith
move-Quiet try_lock state outside = ground arith
move-Quiet try_lock state p = ground arith
move-Quiet unlock state holding = ground arith
move-Quiet unlock state p = ground arith
move-Quiet go state p = go_on-Quiet state p
move-Quiet interrupted state asleep = ground arith
move-Quiet interrupted state p = ground arith

-- While anyone sleeps, the word is `Contended` or a wake-up is on its way.
abbrev Heard : Mutex → Type 0
Heard m =
    (sum_by is_asleep m.threads ≡ 0) ⊎ (m.state ≡ contended) ⊎ (1 ≤ sum_by is_waking m.threads)

sum_by-two : (ps : List Pc) → sum_by is_asleep ps + sum_by is_waking ps ≤ length ps
unfolding sum_by
sum_by-two [] = omega arith
sum_by-two (p ∷ ps) = omega (arith, sum_by-two ps, one p)
  where
    one : (p : Pc) → is_asleep p + is_waking p ≤ 1
    one outside = omega arith
    one p = omega arith

length-wake_up : (i : ℕ) (ps : List Pc) → length (wake_up i ps) ≡ length ps
unfolding wake_up
length-wake_up i ps = elim (Bool-cases (sleeps (get_elem? ps i))) [
  | inl t ↦ rw t (length-set i (spinning spins) ps)
  | inr t ↦ rw t refl
]

abbrev Few : Mutex → Type 0
Few m = length m.threads ≤ 2

move_found-Heard :
    (o : Option Pc) (e : Event) (i : ℕ) (m : Mutex)
    → get_elem? m.threads i ≡ o
    → Heard m
    → Heard (move_found o e i m)
unfolding move_found
move_found-Heard none e i m h heard = heard
move_found-Heard (some p) e i m h heard =
    let q = (move e m.state p).1 in
    let a = sum_by-set is_asleep i p q m.threads h in
    let w = sum_by-set is_waking i p q m.threads h in
    let at_p = sum_by-le is_waking i p m.threads h in
    elim (move-Quiet e m.state p) [
      | inl c ↦ inr (inl c)
      | inr (inl c) ↦ inr (inr (omega (arith, w, c, at_p)))
      | inr (inr (less, more, not_contended)) ↦ elim heard [
        | inl none_asleep ↦ inl (omega (arith, a, less, none_asleep))
        | inr (inl c) ↦ absurd (not_contended c)
        | inr (inr c) ↦ inr (inr (omega (arith, w, more, c)))
      ]
    ]

length-move_found :
    (o : Option Pc) (e : Event) (i : ℕ) (m : Mutex)
    → length (move_found o e i m).threads ≡ length m.threads
unfolding move_found
length-move_found none e i m = refl
length-move_found (some p) e i m = length-set i ((move e m.state p).1) m.threads

module _ (pick : List Pc → ℕ) (kernel : IsKernel pick) where
  step-Heard :
      (x : Step) (m : Mutex) → Few m → Heard m → Few (step pick x m) × Heard (step pick x m)
  unfolding step
  step-Heard (moved e i) m few heard = (
    omega (arith, few, length-move_found (get_elem? m.threads i) e i m),
    move_found-Heard (get_elem? m.threads i) e i m refl heard,
  )
  step-Heard (woke i) m few heard = elim (Bool-cases (wakes (get_elem? m.threads i))) [
    | inl t ↦
        let at_i = wakes-waking (get_elem? m.threads i) t in
        let j = pick m.threads in
        let a = sum_by-woke is_asleep i j m.threads at_i in
        let len : length (set i outside (wake_up j m.threads)) ≡ length m.threads =
          length-set i outside (wake_up j m.threads) ∙ length-wake_up j m.threads in
        rw t (
          omega (arith, few, len),
          elim (Bool-cases (sum_by is_asleep m.threads == 0)) [
            | inl z ↦ inl (ground (arith, a, z))
            | inr nz ↦
                let found = kernel m.threads (ground (arith, nz)) in
                inl (
                  ground (
                    arith,
                    a,
                    found,
                    few,
                    sum_by-two m.threads,
                    sum_by-le is_waking i waking m.threads at_i,
                  ))
          ],
        )
    | inr t ↦ rw t (few, heard)
  ]

  run-Heard : (xs : List Step) (m : Mutex) → Few m → Heard m → Heard (run pick xs m)
  unfolding run
  run-Heard [] m few heard = heard
  run-Heard (x ∷ xs) m few heard =
      let r = step-Heard x m few heard in run-Heard xs (step pick x m) r.0 r.1

  -- Between two threads no wake-up is lost: while one sleeps, either the word is `Contended`, so that the
  -- `unlock` of the other will wake it, or the other is about to wake it.
  pub run-asleep :
      (n : ℕ) (xs : List Step)
      → n ≤ 2
      → sum_by is_asleep (run pick xs (start n)).threads ≢ 0
      → ((run pick xs (start n)).state ≡ contended)
        ⊎ (1 ≤ sum_by is_waking (run pick xs (start n)).threads)
  run-asleep n xs few some_asleep =
      let len = length-replicate n outside in
      elim (run-Heard xs (start n) (omega (arith, few, len))
        (inl (sum_by-replicate is_asleep n outside refl))) [
          | inl z ↦ absurd (some_asleep z)
          | inr c ↦ c
        ]
