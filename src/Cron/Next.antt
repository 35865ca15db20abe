-- ===== src/Cron/Next.antt =====
-- `CronExpression::nextAfter` of src/cron_scheduler.cpp. The calendar is the C library's.
pub mod Found
use pman.Common.{
  ℕ, zero, suc, ◌+◌, ◌*◌, ◌/◌, ◌^◌, Bool, true, false, not, ◌&&◌, ◌||◌, Option, none, some,
  if◌then◌else◌, leb,
}
use pman.Cron.Field.{test}
use pman.Cron.Expression.{CronExpression}

-- The members of `std::tm` that the code reads or writes; `isdst` goes along.
pub record Tm : Type 0 where
  pub sec : ℕ
  pub minute : ℕ
  pub hour : ℕ
  pub mday : ℕ
  pub mon : ℕ
  pub year : ℕ
  pub wday : ℕ
  pub isdst : ℕ

-- `localtime_r`, whose members are in their ranges, and `mktime`. A `time_t` is in seconds.
pub record Calendar : Type 0 where
  pub localtime : ℕ → Tm
  pub mktime : Tm → ℕ

-- The carries at the head of a round.
pub carry_minute : Tm → Tm
carry_minute t = if leb 60 t.minute then record t { minute = 0; hour = t.hour + 1 } else t

pub carry_hour : Tm → Tm
carry_hour t = if leb 24 t.hour then record t { hour = 0; mday = t.mday + 1 } else t

-- Where a round goes on from, for each of the fields that does not match.
pub next_month : Tm → Tm
next_month t =
    if leb 12 (t.mon + 1)
    then record t { mday = 1; hour = 0; minute = 0; mon = 0; year = t.year + 1 }
    else record t { mday = 1; hour = 0; minute = 0; mon = t.mon + 1 }

pub next_day : Tm → Tm
next_day t = record t { hour = 0; minute = 0; mday = t.mday + 1 }

pub next_hour : Tm → Tm
next_hour t = record t { minute = 0; hour = t.hour + 1 }

pub next_minute : Tm → Tm
next_minute t = record t { minute = t.minute + 1 }

pub data Round : Type 0 where
  again : Tm → Round
  found : Tm → Round

pub judge : CronExpression → Tm → Round
unfolding next_month next_day next_hour next_minute
judge c t =
    if not (test (t.mon + 1) c.months)
    then again (next_month t)
    else (if not (test t.mday c.days_of_month) || not (test t.wday c.days_of_week)
        then again (next_day t)
        else (if not (test t.hour c.hours)
            then again (next_hour t)
            else (if not (test t.minute c.minutes) then again (next_minute t) else found t)))

-- The body of the loop, and the loop with the rounds left.
pub round : Calendar → CronExpression → Tm → Round
unfolding carry_minute carry_hour judge
round k c t = judge c (k.localtime (k.mktime (carry_hour (carry_minute t))))

pub go_on : Round → (Tm → Option Tm) → Option Tm
go_on (again t) rest = rest t
go_on (found t) rest = some t

pub rounds : Calendar → CronExpression → ℕ → Tm → Option Tm
unfolding round go_on
rounds k c zero t = none
rounds k c (suc left) t = go_on (round k c t) (rounds k c left)

-- `nextAfter`, from a time in nanoseconds; `none` is `std::runtime_error`.
pub after_minute : Tm → Tm
after_minute t = record t { sec = 0; minute = t.minute + 1 }

pub as_time : Calendar → Option Tm → Option ℕ
as_time k none = none
as_time k (some t) = some (k.mktime t * 10 ^ 9)

unfoldable pub next_after : Calendar → CronExpression → ℕ → Option ℕ
unfolding after_minute rounds as_time
next_after k c after =
    as_time k (rounds k c (366 * 24 * 60) (after_minute (k.localtime (after / 10 ^ 9))))
