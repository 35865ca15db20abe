-- ===== src/Sync/Latch/Places.antt =====
-- The places of the threads of a `FutexLatch`, src/latch.cpp, and what a step changes of them.
use pman.Common.{
  ℕ, ◌+◌, ◌≤◌, ◌≡◌, refl, Bool, true, false, List, [], ◌∷◌, if◌then◌else◌, ◌==◌, map, sum_by, All,
  arith,
}
use pman.Common.Int.{one_part, ℤ, pos, ltb_ℤ, eqb_ℤ, ◌-ℤ◌, pos_part, neg_part}
use pman.Sync.Threads.{either}
use pman.Sync.Latch.{
  Pc, outside, bumping, waking, loading, reading, checking, waiting, asleep, returned, is_open,
  after, counted_down, Event, wait, go, interrupt, go_on, move, wake,
}

-- The threads before the `fetch_add` and before the wake-up, those that sleep, and those that sleep, or are
-- about to, at the present sequence number.
abbrev pub bumps : Pc → ℕ
bumps (bumping waits) = 1
bumps p = 0

abbrev pub wakes : Pc → ℕ
wakes (waking waits) = 1
wakes p = 0

abbrev pub sleeps : Pc → ℕ
sleeps (asleep seq) = 1
sleeps p = 0

abbrev pub current : ℕ → Pc → ℕ
current futex (waiting seq) = if futex == seq then 1 else 0
current futex (asleep seq) = if futex == seq then 1 else 0
current futex p = 0

-- A sequence number was read in the past, and `wait` returns once all is counted down.
abbrev pub Behind : ℕ → ℕ → ℕ → Pc → Type 0
Behind expected total futex (checking seq) = seq ≤ futex
Behind expected total futex (waiting seq) = seq ≤ futex
Behind expected total futex (asleep seq) = seq ≤ futex
Behind expected total futex returned = expected ≤ total
Behind expected total futex p = Unit

pub Behind-later :
    (expected total total' futex futex' : ℕ) (p : Pc)
    → total ≤ total'
    → futex ≤ futex'
    → Behind expected total futex p
    → Behind expected total' futex' p
Behind-later expected total total' futex futex' (checking seq) t f h = omega (arith, f, h)
Behind-later expected total total' futex futex' (waiting seq) t f h = omega (arith, f, h)
Behind-later expected total total' futex futex' (asleep seq) t f h = omega (arith, f, h)
Behind-later expected total total' futex futex' returned t f h = omega (arith, t, h)
Behind-later expected total total' futex futex' p t f h = tt

-- What the counter is.
abbrev pub Counts : ℕ → ℕ → ℤ → Type 0
Counts expected total z = pos_part z + total ≡ expected + neg_part z

pub Counts-sub :
    (expected total n : ℕ) (z : ℤ)
    → Counts expected total z
    → Counts expected (total + n) (z -ℤ pos n)
unfolding ◌-ℤ◌
Counts-sub expected total n z h = ground (arith, h)

abbrev pub Follows : ℕ → ℕ → ℕ → Pc → Pc → Type 0
Follows expected total futex p q =
    Behind expected total futex q
    × (bumps q ≡ bumps p)
    × (wakes q ≡ wakes p)
    × (total ≡ expected → current futex q ≤ current futex p)
    × (sleeps q ≤ sleeps p + current futex p)

pub open-counted :
    (expected total : ℕ) (z : ℤ) → Counts expected total z → is_open z ≡ true → expected ≤ total
unfolding is_open
open-counted expected total z c h = ground (arith, c, h, one_part z)

pub closed-counted :
    (expected total : ℕ) (z : ℤ)
    → Counts expected total z
    → is_open z ≡ false
    → total + 1 ≤ expected
unfolding is_open
closed-counted expected total z c h = ground (arith, c, h, one_part z)

pub go_on-Follows :
    (expected total futex : ℕ) (z : ℤ) (p : Pc)
    → Counts expected total z
    → Behind expected total futex p
    → Follows expected total futex p (go_on z futex p)
unfolding go_on
go_on-Follows expected total futex z loading c h =
    either (Follows expected total futex loading) (is_open z) returned reading
      (λ o. (open-counted expected total z c o, refl, refl, (λ v. omega arith), omega arith))
      (λ o. (tt, refl, refl, (λ v. omega arith), omega arith))
go_on-Follows expected total futex z reading c h =
    (omega arith, refl, refl, (λ v. omega arith), omega arith)
go_on-Follows expected total futex z (checking seq) c h =
    either (Follows expected total futex (checking seq)) (is_open z) returned (waiting seq)
      (λ o. (open-counted expected total z c o, refl, refl, (λ v. omega arith), omega arith))
      (λ o.
        (h, refl, refl, (λ v. omega (arith, v, closed-counted expected total z c o)), omega arith))
go_on-Follows expected total futex z (waiting seq) c h =
    either (Follows expected total futex (waiting seq)) (futex == seq) (asleep seq) loading
      (λ o. (h, refl, refl, (λ v. omega arith), ground (arith, o)))
      (λ o. (tt, refl, refl, (λ v. omega arith), omega arith))
go_on-Follows expected total futex z p c h = (h, refl, refl, (λ v. omega arith), omega arith)

pub move-Follows :
    (e : Event) (expected total futex : ℕ) (z : ℤ) (p : Pc)
    → Counts expected total z
    → Behind expected total futex p
    → Follows expected total futex p (move e z futex p)
unfolding move
move-Follows go expected total futex z p c h = go_on-Follows expected total futex z p c h
move-Follows wait expected total futex z outside c h =
    (tt, refl, refl, (λ v. omega arith), omega arith)
move-Follows interrupt expected total futex z (asleep seq) c h =
    (h, refl, refl, (λ v. omega arith), omega arith)
move-Follows e expected total futex z p c h = (h, refl, refl, (λ v. omega arith), omega arith)

pub after-Behind :
    (expected total futex : ℕ) (waits : Bool) → Behind expected total futex (after waits)
unfolding after
after-Behind expected total futex true = tt
after-Behind expected total futex false = tt

pub counted_down-Behind :
    (expected total futex n : ℕ) (z : ℤ) (waits : Bool)
    → Behind expected total futex (counted_down z n waits)
unfolding counted_down
counted_down-Behind expected total futex n z waits =
    either (Behind expected total futex) (eqb_ℤ z (pos n)) (bumping waits)
      (if ltb_ℤ z (pos n) then outside else after waits) (λ b. tt)
      (λ b.
        either (Behind expected total futex) (ltb_ℤ z (pos n)) outside (after waits) (λ c. tt)
          (λ c. after-Behind expected total futex waits))

-- The call that counts down the last of it is the one that wakes the threads.
pub last-bumps :
    (expected total n : ℕ) (z : ℤ) (waits : Bool)
    → Counts expected total z
    → total + n ≡ expected
    → bumps (counted_down z n waits) ≡ 1
unfolding counted_down
last-bumps expected total n z waits c h =
    either (λ q. bumps q ≡ 1) (eqb_ℤ z (pos n)) (bumping waits)
      (if ltb_ℤ z (pos n) then outside else after waits) (λ b. refl)
      (λ b. ground (arith, b, c, h, one_part z))

-- No thread has read a sequence number that is still to come.
pub next-current :
    (expected total futex : ℕ) (ps : List Pc)
    → All (Behind expected total futex) ps
    → sum_by (current (futex + 1)) ps ≡ 0
unfolding sum_by
next-current expected total futex [] all = refl
next-current expected total futex (p ∷ ps) all =
    omega (arith, one p all.0, next-current expected total futex ps all.1)
  where
    one : (p : Pc) → Behind expected total futex p → current (futex + 1) p ≡ 0
    one (waiting seq) h = ground (arith, h)
    one (asleep seq) h = ground (arith, h)
    one p h = refl

-- What a wake-up of all changes.
pub wake-Behind :
    (expected total futex : ℕ) (ps : List Pc)
    → All (Behind expected total futex) ps
    → All (Behind expected total futex) (map wake ps)
unfolding wake
wake-Behind expected total futex [] all = tt
wake-Behind expected total futex (p ∷ ps) all =
    (one p all.0, wake-Behind expected total futex ps all.1)
  where
    one : (p : Pc) → Behind expected total futex p → Behind expected total futex (wake p)
    one (asleep seq) h = tt
    one p h = h

pub wake-bumps : (ps : List Pc) → sum_by bumps (map wake ps) ≡ sum_by bumps ps
unfolding wake sum_by
wake-bumps [] = refl
wake-bumps (p ∷ ps) = omega (arith, one p, wake-bumps ps)
  where
    one : (p : Pc) → bumps (wake p) ≡ bumps p
    one (asleep seq) = refl
    one p = refl

pub wake-current :
    (futex : ℕ) (ps : List Pc) → sum_by (current futex) (map wake ps) ≤ sum_by (current futex) ps
unfolding wake sum_by
wake-current futex [] = omega arith
wake-current futex (p ∷ ps) = omega (arith, one p, wake-current futex ps)
  where
    one : (p : Pc) → current futex (wake p) ≤ current futex p
    one (asleep seq) = omega arith
    one p = omega arith

pub wake-sleeps : (ps : List Pc) → sum_by sleeps (map wake ps) ≡ 0
unfolding wake sum_by
wake-sleeps [] = refl
wake-sleeps (p ∷ ps) = omega (arith, one p, wake-sleeps ps)
  where
    one : (p : Pc) → sleeps (wake p) ≡ 0
    one (asleep seq) = refl
    one p = refl

pub after-idle :
    (futex : ℕ) (waits : Bool) → (bumps (after waits) ≡ 0) × (current futex (after waits) ≡ 0)
unfolding after
after-idle futex true = (refl, refl)
after-idle futex false = (refl, refl)
