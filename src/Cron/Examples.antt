-- ===== src/Cron/Examples.antt =====
-- Cron expressions of src/cron_scheduler.cpp at work.
use Prim.Native.Char.{code}
use Prim.Native.String.{String}
use pman.Common.{
  ℕ, ◌+◌, ◌-◌, ◌*◌, ◌/◌, ◌%◌, ◌^◌, ◌≡◌, ◌≤◌, sum_by, refl, true, [], ◌∷◌, Option, none, some, arith,
}
use pman.Common.Int.{pos}
use pman.Cron.Text.{Text, words, parts, from_chars, join, decimal, split_dash}
use pman.Cron.Field.{
  only, set_from, none_set, set, test, values_from, parse_field, field_to_string, parse_parts,
}
use pman.Cron.Expression.{
  CronExpression, Parsed, parsed, parse, to_string, every_minute, hour_range, invalid, undefined,
}
use pman.Cron.Expression.Print.{IsPrintable, parse-to_string}
use pman.Cron.Next.{Calendar, next_after}
use pman.Cron.Next.Found.{Matches, IsInRange, IsSteady, next_after-Matches, next_after-every_minute}
use pman.Cron.Scheduler.{
  CronScheduler, cancel, executed, Running, scheduled, cancelled, collected, ran,
}
use pman.Cron.Scheduler.Cancelled.{times, cancel-executed}

abbrev codes : String → Text
codes String.[] = []
codes (String.◌∷◌ c s) = code c ∷ codes s

-- Every day at half past eight, written out.
abbrev half_past_eight : CronExpression
half_past_eight = record {
  minutes = only 60 30;
  hours = only 24 8;
  days_of_month = set_from 31 1 32 (none_set 32);
  months = set_from 12 1 13 (none_set 13);
  days_of_week = set_from 7 0 7 (none_set 7);
}

methods : Unit {0}
unfolding parse to_string words parts split_dash from_chars parse_field parse_parts values_from
    field_to_string join decimal set_from none_set set only hour_range
methods = tt

printed : Parsed → Text
printed invalid = []
printed undefined = []
printed (parsed c) = to_string c

office_hours : printed (parse (codes "0,30 9-12 * * 1-5")) ≡ codes "0,30 9,10,11,12 * * 1,2,3,4,5"
unfolding methods printed
office_hours = refl

too_few : parse (codes "0 12 * *") ≡ invalid
unfolding methods
too_few = refl

-- A step, and any other word, leaves the number of the part uninitialised.
with_step : parse (codes "*/5 * * * *") ≡ undefined
unfolding methods
with_step = refl

-- The hours from 22 to 2 are none; the text of the expression has only four words.
overnight : Option Parsed
overnight = elim (hour_range (pos 22) (pos 2) every_minute) [
  | none ↦ none
  | some c ↦ some (parse (to_string c))
]

overnight_invalid : overnight ≡ some invalid
unfolding methods overnight every_minute
overnight_invalid = refl

half_past_eight-IsPrintable : IsPrintable half_past_eight
unfolding methods
half_past_eight-IsPrintable = record {
  minutes = (refl, omega arith);
  hours = (refl, omega arith);
  days_of_month = (refl, omega arith);
  months = (refl, omega arith);
  days_of_week = (refl, omega arith);
}

parse-to_string_example : parse (to_string half_past_eight) ≡ parsed half_past_eight
parse-to_string_example = parse-to_string half_past_eight half_past_eight-IsPrintable

-- A calendar of months with 28 days and years with 12 months, from a Monday on.
abbrev simple : Calendar
simple = record {
  localtime = λ t. record {
    sec = t % 60;
    minute = t / 60 % 60;
    hour = t / 3600 % 24;
    mday = t / 86400 % 28 + 1;
    mon = t / (86400 * 28) % 12;
    year = t / (86400 * 336);
    wday = (t / 86400 + 1) % 7;
    isdst = 0;
  };
  mktime = λ t.
      t.sec + 60 * t.minute + 3600 * t.hour + 86400 * (t.mday + 28 * (t.mon + 12 * t.year)) - 86400;
}

simple-IsInRange : (time : ℕ) → IsInRange (simple.localtime time)
simple-IsInRange time = record {
  minute = omega arith;
  hour = omega arith;
  mday_from = omega arith;
  mday_to = omega arith;
  mon = omega arith;
  wday = omega arith;
}

-- From 1 minute and 30 seconds after the start: half past eight of the first day.
half_past_eight_next : next_after simple half_past_eight (90 * 10 ^ 9) ≡ some (30600 * 10 ^ 9)
unfolding methods next_after test
half_past_eight_next = refl

next_after-Matches_example :
    (time : ℕ) × Matches half_past_eight (simple.localtime time)
    × (30600 * 10 ^ 9 ≡ simple.mktime (simple.localtime time) * 10 ^ 9)
next_after-Matches_example =
    next_after-Matches simple half_past_eight (90 * 10 ^ 9) (30600 * 10 ^ 9) half_past_eight_next

simple-IsSteady : IsSteady simple
simple-IsSteady = record {
  in_range = simple-IsInRange;
  inverse = λ time. omega arith;
  minutes = λ time m h. omega arith;
}

next_after-every_minute_example :
    (next : ℕ) × (next_after simple every_minute (90 * 10 ^ 9) ≡ some (next * 10 ^ 9))
    × (next + (simple.localtime (90 * 10 ^ 9 / 10 ^ 9)).sec ≡ 90 * 10 ^ 9 / 10 ^ 9 + 60)
next_after-every_minute_example =
    next_after-every_minute simple (90 * 10 ^ 9) simple-IsSteady (omega arith)

abbrev morning : CronScheduler
morning = record {
  tasks =
      record {
        id = 1;
        name = 0;
        expression = half_past_eight;
        next_run = 30600 * 10 ^ 9;
        execution_count = 0;
        active = true;
      }
      ∷ [];
  next_task_id = 2;
}

abbrev resting : Running
resting = record { scheduler = morning; to_execute = [] }

-- Without the call of `cancel` the task runs once.
runs_once :
    executed simple
      (collected (30600 * 10 ^ 9) ∷ ran ∷ ran ∷ collected (30660 * 10 ^ 9) ∷ ran ∷ [])
      resting
    ≡ 1 ∷ []
unfolding methods next_after test executed
runs_once = refl

-- A task that is cancelled after it was collected still runs.
runs_after_cancel :
    executed simple (collected (30600 * 10 ^ 9) ∷ cancelled 1 ∷ ran ∷ []) resting ≡ 1 ∷ []
unfolding methods next_after test executed
runs_after_cancel = refl

cancel-executed_example :
    times 1 (
      executed simple
        (collected (30600 * 10 ^ 9) ∷ ran ∷ scheduled 0 0 half_past_eight ∷ [])
        (record resting { scheduler = (cancel 1 morning).1 }))
    ≤ 0
unfolding sum_by
cancel-executed_example =
    cancel-executed 1 simple (collected (30600 * 10 ^ 9) ∷ ran ∷ scheduled 0 0 half_past_eight ∷ [])
      resting (omega arith)
