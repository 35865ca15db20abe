-- ===== src/Sync/SeqLock/Copies.antt =====
-- What the readers of `SeqLock`, include/pman/seqlock.hpp, return.
use pman.Common.{
  ℕ, ◌+◌, ◌%◌, ◌≤◌, ◌<◌, ◌≡◌, ◌⊎◌, refl, sym, subst, ap, Bool, true, false, List, [], ◌∷◌, ◌++◌,
  Option, none, some, if◌then◌else◌, ◌==◌, length, modify, All, All-replicate, sum_by,
  sum_by-replicate, Bool-cases, inl, inr, arith,
}
use pman.Sync.Threads.{get_elem?, set, sum_by-set, sum_by-le, All-set, All-get_elem?, All-imp}
use pman.Sync.SeqLock.{
  Pc, outside, locked, writing, leaving, loading, copying, returned, SeqLock, start, Event, lock,
  read, write, unlock, go, place, copy_found, go_on, move, move_found, step, run,
}

-- The threads that have the mutex, and those that write.
abbrev pub owns : Pc → ℕ
owns locked = 1
owns writing = 1
owns leaving = 1
owns p = 0

abbrev pub writes : Pc → ℕ
writes writing = 1
writes p = 0

-- The first list begins the second.
abbrev Begins : List ℕ → List ℕ → Type 0
Begins [] ys = Unit {0}
Begins (x ∷ xs) [] = ⊥
Begins (x ∷ xs) (y ∷ ys) = (x ≡ y) × Begins xs ys

Begins-append :
    (xs ys : List ℕ) (y : ℕ)
    → Begins xs ys
    → get_elem? ys (length xs) ≡ some y
    → Begins (xs ++ (y ∷ [])) ys
Begins-append [] [] y b h = cc (h)
Begins-append [] (z ∷ ys) y b h = (cc (h), tt)
Begins-append (x ∷ xs) [] y b h = b
Begins-append (x ∷ xs) (z ∷ ys) y b h = (b.0, Begins-append xs ys y b.1 h)

Begins-end : (xs ys : List ℕ) → Begins xs ys → get_elem? ys (length xs) ≡ none → xs ≡ ys
Begins-end [] [] b h = refl
Begins-end [] (z ∷ ys) b h = cc (h)
Begins-end (x ∷ xs) [] b h = absurd b
Begins-end (x ∷ xs) (z ∷ ys) b h = let ih = Begins-end xs ys b.1 h in cc (b.0, ih)

-- The list is one of these.
abbrev pub Among : List ℕ → List (List ℕ) → Type 0
Among xs [] = ⊥
Among xs (ys ∷ yss) = (xs ≡ ys) ⊎ Among xs yss

-- What a reader knows: while the sequence number is still what it has loaded, it has the first words,
-- and a copy that it returns has been published.
abbrev Fresh : SeqLock → Pc → Type 0
Fresh s (copying version copy) =
    (version % 2 ≡ 0) × (version ≤ s.seq) × ((version < s.seq) ⊎ Begins copy s.words)
Fresh s (returned copy) = Among copy s.published
Fresh s p = Unit {0}

pub record Inv (s : SeqLock) : Type 0 where
  pub owner : sum_by owns s.threads ≡ (if s.is_locked then 1 else 0)
  pub writer : sum_by writes s.threads ≡ s.seq % 2
  pub stable : (s.seq % 2 ≡ 1) ⊎ Among s.words s.published
  pub fresh : All (Fresh s) s.threads

-- The sequence number has grown, or the words are the same; and nothing that was published is lost.
module _ (s t : SeqLock)
    (later : (s.seq < t.seq)
      ⊎ ((s.seq ≡ t.seq) × (s.words ≡ t.words))
      ⊎ ((s.seq ≡ t.seq) × (s.seq % 2 ≡ 1)))
    (kept : (xs : List ℕ) → Among xs s.published → Among xs t.published) where
  Fresh-later : (p : Pc) → Fresh s p → Fresh t p
  Fresh-later (copying version copy) (even, le, c) = elim later [
    | inl lt ↦ (even, omega (arith, le, lt), inl (omega (arith, le, lt)))
    | inr (inl (e, w)) ↦ elim c [
      | inl l ↦ (even, omega (arith, le, e), inl (omega (arith, l, e)))
      | inr b ↦ (even, omega (arith, le, e), inr (subst (Begins copy) w b))
    ]
    | inr (inr (e, odd)) ↦ (even, omega (arith, le, e), inl (omega (arith, le, e, even, odd)))
  ]
  Fresh-later (returned copy) f = kept copy f
  Fresh-later p f = tt

writes-owns : (ps : List Pc) → sum_by writes ps ≤ sum_by owns ps
unfolding sum_by
writes-owns [] = omega arith
writes-owns (p ∷ ps) = omega (arith, one p, writes-owns ps)
  where
    one : (p : Pc) → writes p ≤ owns p
    one writing = omega arith
    one locked = omega arith
    one p = omega arith

module _ (i : ℕ) (p : Pc) (s : SeqLock) (h : get_elem? s.threads i ≡ some p) (inv : Inv s) where
  -- A reader goes on.
  reader-Inv : (q : Pc) → owns q ≡ owns p → writes q ≡ writes p → Fresh s q → Inv (place i q s)
  reader-Inv q o w f = record {
    owner = omega (arith, inv.owner, o, sum_by-set owns i p q s.threads h);
    writer = omega (arith, inv.writer, w, sum_by-set writes i p q s.threads h);
    stable = inv.stable;
    fresh = All-set (Fresh s) i q s.threads f inv.fresh;
  }

  few : (q : Pc) → sum_by owns (set i q s.threads) + owns p ≡ sum_by owns s.threads + owns q
  few q = sum_by-set owns i p q s.threads h

  lock-Inv :
      p ≡ outside → s.is_locked ≡ false → Inv (place i locked (record s { is_locked = true }))
  lock-Inv e free = record {
    owner = ground (arith, inv.owner, few locked, free, ap owns e);
    writer = omega (arith, inv.writer, ap writes e, sum_by-set writes i p locked s.threads h);
    stable = inv.stable;
    fresh = All-set (Fresh s) i locked s.threads tt inv.fresh;
  }

  enter-Inv : p ≡ locked → Inv (place i writing (record s { seq = s.seq + 1 }))
  enter-Inv e =
      let t : SeqLock = record s { seq = s.seq + 1 } in
      let w = sum_by-set writes i p writing s.threads h in
      let le = writes-owns (set i writing s.threads) in
      let even : s.seq % 2 ≡ 0 =
        ground (arith, inv.owner, inv.writer, few writing, w, le, ap owns e, ap writes e) in
      record {
        owner = omega (arith, inv.owner, few writing, ap owns e);
        writer = omega (arith, inv.writer, w, ap writes e, even);
        stable = inl (omega (arith, even));
        fresh = All-set (Fresh t) i writing s.threads tt (
            All-imp (Fresh s) (Fresh t) s.threads (Fresh-later s t (inl (omega arith)) (λ xs a. a))
              inv.fresh);
      }

  write-Inv : (j w : ℕ) → p ≡ writing → Inv (record s { words = modify j (λ x. w) s.words })
  write-Inv j w e =
      let t : SeqLock = record s { words = modify j (λ x. w) s.words } in
      let odd : s.seq % 2 ≡ 1 =
        omega (arith, inv.writer, ap writes e, sum_by-le writes i p s.threads h) in
      record {
        owner = inv.owner;
        writer = inv.writer;
        stable = inl odd;
        fresh =
            All-imp (Fresh s) (Fresh t) s.threads
              (Fresh-later s t (inr (inr (refl, odd))) (λ xs a. a)) inv.fresh;
      }

  unlock-Inv :
      p ≡ writing
      → Inv (place i leaving (record s { seq = s.seq + 1; published = s.words ∷ s.published }))
  unlock-Inv e =
      let t : SeqLock = record s { seq = s.seq + 1; published = s.words ∷ s.published } in
      let w = sum_by-set writes i p leaving s.threads h in
      let odd : s.seq % 2 ≡ 1 =
        omega (arith, inv.writer, ap writes e, sum_by-le writes i p s.threads h) in
      record {
        owner = omega (arith, inv.owner, few leaving, ap owns e);
        writer = omega (arith, inv.writer, w, ap writes e, odd);
        stable = inr (inl refl);
        fresh = All-set (Fresh t) i leaving s.threads tt (
            All-imp (Fresh s) (Fresh t) s.threads
              (Fresh-later s t (inl (omega arith)) (λ xs a. inr a)) inv.fresh);
      }

  leave-Inv : p ≡ leaving → Inv (place i outside (record s { is_locked = false }))
  leave-Inv e = record {
    owner = ground (arith, inv.owner, few outside, ap owns e);
    writer = omega (arith, inv.writer, ap writes e, sum_by-set writes i p outside s.threads h);
    stable = inv.stable;
    fresh = All-set (Fresh s) i outside s.threads tt inv.fresh;
  }

-- A copy with as many words as there are, and the same sequence number before and after.
copied-Among :
    (version : ℕ) (copy : List ℕ) (s : SeqLock)
    → Inv s
    → Fresh s (copying version copy)
    → get_elem? s.words (length copy) ≡ none
    → s.seq ≡ version
    → Among copy s.published
copied-Among version copy s inv (even, le, c) h same = elim c [
  | inl l ↦ absurd (omega (arith, l, same))
  | inr b ↦ elim inv.stable [
    | inl odd ↦ absurd (omega (arith, odd, even, ap (λ n. n % 2) same))
    | inr a ↦ subst (λ xs. Among xs s.published) (sym (Begins-end copy s.words b h)) a
  ]
]

copy_found-Inv :
    (o : Option ℕ) (version : ℕ) (copy : List ℕ) (i : ℕ) (s : SeqLock)
    → get_elem? s.words (length copy) ≡ o
    → get_elem? s.threads i ≡ some (copying version copy)
    → Inv s
    → Inv (copy_found o version copy i s)
unfolding copy_found
copy_found-Inv (some w) version copy i s g h inv =
    reader-Inv i (copying version copy) s h inv (copying version (copy ++ (w ∷ []))) refl refl
      (next f)
  where
    f : Fresh s (copying version copy)
    f = All-get_elem? (Fresh s) i (copying version copy) s.threads h inv.fresh

    next : Fresh s (copying version copy) → Fresh s (copying version (copy ++ (w ∷ [])))
    next (even, le, c) = elim c [
      | inl l ↦ (even, le, inl l)
      | inr b ↦ (even, le, inr (Begins-append copy s.words w b g))
    ]
copy_found-Inv none version copy i s g h inv =
    let f = All-get_elem? (Fresh s) i (copying version copy) s.threads h inv.fresh in
    elim (Bool-cases (s.seq == version)) [
      | inl t ↦ rw t (
          reader-Inv i (copying version copy) s h inv (returned copy) refl refl
            (copied-Among version copy s inv f g (ground (arith, t))))
      | inr t ↦ rw t (reader-Inv i (copying version copy) s h inv loading refl refl tt)
    ]

go_on-Inv :
    (p : Pc) (i : ℕ) (s : SeqLock) → get_elem? s.threads i ≡ some p → Inv s → Inv (go_on p i s)
unfolding go_on
go_on-Inv outside i s h inv = inv
go_on-Inv locked i s h inv = enter-Inv i locked s h inv refl
go_on-Inv writing i s h inv = inv
go_on-Inv leaving i s h inv = leave-Inv i leaving s h inv refl
go_on-Inv loading i s h inv = elim (Bool-cases (s.seq % 2 == 1)) [
  | inl t ↦ rw t (reader-Inv i loading s h inv loading refl refl tt)
  | inr t ↦ rw t (
      reader-Inv i loading s h inv (copying s.seq []) refl refl
        (ground (arith, t), omega arith, inr tt))
]
go_on-Inv (copying version copy) i s h inv =
    copy_found-Inv (get_elem? s.words (length copy)) version copy i s refl h inv
go_on-Inv (returned copy) i s h inv = reader-Inv i (returned copy) s h inv outside refl refl tt

lock_if-Inv :
    (b : Bool) (i : ℕ) (s : SeqLock)
    → s.is_locked ≡ b
    → get_elem? s.threads i ≡ some outside
    → Inv s
    → Inv (if b then s else place i locked (record s { is_locked = true }))
lock_if-Inv true i s e h inv = inv
lock_if-Inv false i s e h inv = lock-Inv i outside s h inv refl e

move-Inv :
    (e : Event) (p : Pc) (i : ℕ) (s : SeqLock)
    → get_elem? s.threads i ≡ some p
    → Inv s
    → Inv (move e p i s)
unfolding move
move-Inv go p i s h inv = go_on-Inv p i s h inv
move-Inv lock outside i s h inv = lock_if-Inv s.is_locked i s refl h inv
move-Inv read outside i s h inv = reader-Inv i outside s h inv loading refl refl tt
move-Inv (write j w) writing i s h inv = write-Inv i writing s h inv j w refl
move-Inv unlock writing i s h inv = unlock-Inv i writing s h inv refl
move-Inv e p i s h inv = inv

move_found-Inv :
    (o : Option Pc) (e : Event) (i : ℕ) (s : SeqLock)
    → get_elem? s.threads i ≡ o
    → Inv s
    → Inv (move_found o e i s)
unfolding move_found
move_found-Inv none e i s h inv = inv
move_found-Inv (some p) e i s h inv = move-Inv e p i s h inv

run-Inv : (xs : List (Event × ℕ)) (s : SeqLock) → Inv s → Inv (run xs s)
unfolding run step
run-Inv [] s inv = inv
run-Inv ((e, i) ∷ xs) s inv =
    run-Inv xs (step e i s) (move_found-Inv (get_elem? s.threads i) e i s refl inv)

-- Whatever the writers and readers do and in whatever order: what a reader returns are the words as they
-- were at first or as a writer has left them, never a part of one write and a part of another.
pub run-returned :
    (words : List ℕ) (n : ℕ) (xs : List (Event × ℕ)) (i : ℕ) (copy : List ℕ)
    → get_elem? (run xs (start words n)).threads i ≡ some (returned copy)
    → Among copy (run xs (start words n)).published
run-returned words n xs i copy h =
    let s = run xs (start words n) in
    let inv = run-Inv xs (start words n) (record {
      owner = sum_by-replicate owns n outside refl;
      writer = sum_by-replicate writes n outside refl;
      stable = inr (inl refl);
      fresh = All-replicate (Fresh (start words n)) n outside tt;
    }) in
    All-get_elem? (Fresh s) i (returned copy) s.threads h inv.fresh
