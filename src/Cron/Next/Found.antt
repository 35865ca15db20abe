-- ===== src/Cron/Next/Found.antt =====
-- What `CronExpression::nextAfter` of src/cron_scheduler.cpp finds.
use pman.Common.{
  ℕ, subst, ◌/◌, ◌^◌, zero, suc, ◌+◌, ◌-◌, ◌*◌, ◌≤◌, ◌<◌, ◌≡◌, refl, sym, ap, ◌∙◌, true, Option,
  none, some, arith,
}
use pman.Cron.Field.{test, none_set}
use pman.Cron.Field.Bits.{set_from_lem, length-none_set}
use pman.Cron.Expression.{CronExpression, set_all, all_from, every_minute}
use pman.Cron.Next.{
  Tm, Calendar, Round, again, found, judge, as_time, go_on, round, rounds, next_after, carry_minute,
  carry_hour, after_minute,
}

-- A local time matches an expression in all five fields.
pub record Matches (c : CronExpression) (t : Tm) : Type 0 where
  pub month : test (t.mon + 1) c.months ≡ true
  pub day_of_month : test t.mday c.days_of_month ≡ true
  pub day_of_week : test t.wday c.days_of_week ≡ true
  pub hour : test t.hour c.hours ≡ true
  pub minute : test t.minute c.minutes ≡ true

judge-Matches : (c : CronExpression) (t u : Tm) → judge c t ≡ found u → (u ≡ t) × Matches c t
unfolding judge
judge-Matches c t u h = ground (arith, h)

go_on-some {ℓ} :
    {C : Type ℓ} (r : Round) (rest : Tm → Option Tm) (u : Tm)
    → go_on r rest ≡ some u
    → ((t : Tm) → rest t ≡ some u → C)
    → (r ≡ found u → C)
    → C
unfolding go_on
go_on-some (again t) rest u h later now = later t h
go_on-some (found t) rest u h later now = now (cc h)

found_now :
    (k : Calendar) (c : CronExpression) (t u : Tm)
    → round k c t ≡ found u
    → (time : ℕ) × (u ≡ k.localtime time) × Matches c u
unfolding round
found_now k c t u h =
    let m = judge-Matches c (k.localtime (k.mktime (carry_hour (carry_minute t)))) u h in
    (k.mktime (carry_hour (carry_minute t)), m.0, subst (λ x. Matches c x) (sym m.0) m.1)

rounds-Matches :
    (k : Calendar) (c : CronExpression) (left : ℕ) (t u : Tm)
    → rounds k c left t ≡ some u
    → (time : ℕ) × (u ≡ k.localtime time) × Matches c u
unfolding rounds
rounds-Matches k c zero t u h = absurd (ground (arith, h))
rounds-Matches k c (suc left) t u h =
    go_on-some (round k c t) (rounds k c left) u h (λ t' h'. rounds-Matches k c left t' u h')
      (found_now k c t u)

value : Option ℕ → ℕ
value none = 0
value (some n) = n

-- The time that `nextAfter` returns is that of a local time of the calendar which matches the
-- expression in its month, its two days, its hour and its minute.
pub next_after-Matches :
    (k : Calendar) (c : CronExpression) (after next : ℕ)
    → next_after k c after ≡ some next
    → (time : ℕ) × Matches c (k.localtime time) × (next ≡ k.mktime (k.localtime time) * 10 ^ 9)
unfolding next_after as_time value
next_after-Matches k c after next h =
    from_rounds (rounds k c (366 * 24 * 60) (after_minute (k.localtime (after / 10 ^ 9)))) refl h
  where
    from_rounds :
        (o : Option Tm)
        → rounds k c (366 * 24 * 60) (after_minute (k.localtime (after / 10 ^ 9))) ≡ o
        → as_time k o ≡ some next
        → (time : ℕ) × Matches c (k.localtime time) × (next ≡ k.mktime (k.localtime time) * 10 ^ 9)
    from_rounds none e q = absurd (ground (arith, q))
    from_rounds (some u) e q =
        let r =
          rounds-Matches k c (366 * 24 * 60) (after_minute (k.localtime (after / 10 ^ 9))) u e in
        (
          r.0,
          subst (λ t. Matches c t) r.1 r.2,
          sym (ap (λ o. value o) q) ∙ ap (λ x. k.mktime x * 10 ^ 9) r.1,
        )

-- A local time is in the ranges that <time.h> states.
pub record IsInRange (t : Tm) : Type 0 where
  pub minute : t.minute < 60
  pub hour : t.hour < 24
  pub mday_from : 0 < t.mday
  pub mday_to : t.mday < 32
  pub mon : t.mon < 12
  pub wday : t.wday < 7

test-all_from : (size i j : ℕ) → i ≤ j → j < size → test j (all_from size i) ≡ true
unfolding all_from
test-all_from size i j h l =
    set_from_lem (size - i) i j size (none_set size) (omega (arith, length-none_set size))
    ∙ ground arith

judge-every_minute : (t : Tm) → IsInRange t → judge every_minute t ≡ found t
unfolding judge every_minute set_all
judge-every_minute t h =
    rw
      (
        test-all_from 13 1 (t.mon + 1) (omega arith) (omega arith),
        test-all_from 32 1 t.mday (omega arith) (omega arith),
        test-all_from 7 0 t.wday (omega arith) (omega arith),
        test-all_from 24 0 t.hour (omega arith) (omega arith),
        test-all_from 60 0 t.minute (omega arith) (omega arith),
      )
      refl

first_round :
    (k : Calendar) (t : Tm)
    → ((time : ℕ) → IsInRange (k.localtime time))
    → round k every_minute t ≡ found (k.localtime (k.mktime (carry_hour (carry_minute t))))
unfolding round
first_round k t h = judge-every_minute _ (h (k.mktime (carry_hour (carry_minute t))))

rounds-first :
    (k : Calendar) (c : CronExpression) (left : ℕ) (t u : Tm)
    → 0 < left
    → round k c t ≡ found u
    → rounds k c left t ≡ some u
unfolding rounds go_on
rounds-first k c zero t u h e = elim h [ ]
rounds-first k c (suc left) t u h e = rw e refl

uncarried : (t : Tm) → t.minute < 60 → t.hour < 24 → carry_hour (carry_minute t) ≡ t
unfolding carry_minute carry_hour
uncarried t h h' = ground (arith, h, h')

-- What <time.h> promises of a clock that is not put forward or back: `mktime` undoes `localtime_r`, and
-- another minute of the same hour is as many minutes away.
pub record IsSteady (k : Calendar) : Type 0 where
  pub in_range : (time : ℕ) → IsInRange (k.localtime time)
  pub inverse : (time : ℕ) → k.mktime (k.localtime time) ≡ time
  pub minutes :
      (time m : ℕ)
      → m < 60
      → let t = k.localtime time in
        k.mktime (record t { sec = 0; minute = m }) + t.sec + 60 * t.minute ≡ time + 60 * m

-- If `localtime_r` keeps to the ranges of its members, `mktime` undoes it, and the minutes of an hour are a
-- minute apart, the expression of every minute has a next time, which is the beginning of the minute after
-- the one given, if that is not the last minute of its hour.
pub next_after-every_minute :
    (k : Calendar) (after : ℕ)
    → IsSteady k
    → (k.localtime (after / 10 ^ 9)).minute + 1 < 60
    → (next : ℕ) × (next_after k every_minute after ≡ some (next * 10 ^ 9))
      × (next + (k.localtime (after / 10 ^ 9)).sec ≡ after / 10 ^ 9 + 60)
unfolding next_after as_time after_minute
next_after-every_minute k after steady h =
    let time = after / 10 ^ 9 in
    let t = k.localtime time in
    let u = record t { sec = 0; minute = t.minute + 1 } in
    (
      k.mktime u,
      ap (λ o. as_time k o)
            (rounds-first k every_minute (366 * 24 * 60) u _ (omega arith)
              (first_round k u steady.in_range))
          ∙ ap (λ x. some (x * 10 ^ 9))
              (steady.inverse (k.mktime (carry_hour (carry_minute u)))
                ∙ ap k.mktime (uncarried u h (steady.in_range time).hour)),
      omega (arith, steady.minutes time (t.minute + 1) h),
    )
