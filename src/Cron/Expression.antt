-- ===== src/Cron/Expression.antt =====
-- `CronExpression` of src/cron_scheduler.cpp, but for `nextAfter`.
pub mod Print
use pman.Common.{
  ℕ, zero, suc, ◌+◌, ◌-◌, ◌≤◌, Bool, true, false, List, [], ◌∷◌, ◌++◌, Option, none, some,
  if◌then◌else◌, ltb, leb, ◌&&◌,
}
use pman.Common.Int.{ℤ, pos, negsuc, ltb_ℤ}
use pman.Cron.Text.{Text, words}
use pman.Cron.Field.{Bits, set, none_set, only, set_from, then_with, parse_field, field_to_string}

pub record CronExpression : Type 0 where
  pub minutes : Bits
  pub hours : Bits
  pub days_of_month : Bits
  pub months : Bits
  pub days_of_week : Bits

-- All bits but some lowest ones: days and months have no 0.
unfoldable pub all_from : ℕ → ℕ → Bits
unfolding set_from none_set
all_from size i = set_from (size - i) i size (none_set size)

-- The constructor, `setAll`.
unfoldable pub set_all : CronExpression
unfolding all_from
set_all = record {
  minutes = all_from 60 0;
  hours = all_from 24 0;
  days_of_month = all_from 32 1;
  months = all_from 13 1;
  days_of_week = all_from 7 0;
}

-- `parse`: `invalid` is `std::invalid_argument`, `undefined` the use of an uninitialised number.
pub data Parsed : Type 0 where
  invalid : Parsed
  undefined : Parsed
  parsed : CronExpression → Parsed

pub parse_fields : Text → Text → Text → Text → Text → Option CronExpression
unfolding parse_field none_set
parse_fields a b c d e = then_with (parse_field 59 a (none_set 60)) λ minutes.
    then_with (parse_field 23 b (none_set 24)) λ hours.
      then_with (parse_field 31 c (none_set 32)) λ days_of_month.
        then_with (parse_field 12 d (none_set 13)) λ months.
          then_with (parse_field 6 e (none_set 7)) λ days_of_week. some (record {
            minutes = minutes;
            hours = hours;
            days_of_month = days_of_month;
            months = months;
            days_of_week = days_of_week;
          })

pub as_parsed : Option CronExpression → Parsed
as_parsed none = undefined
as_parsed (some c) = parsed c

pub parse_words : List Text → Parsed
unfolding parse_fields as_parsed
parse_words [] = invalid
parse_words (a ∷ []) = invalid
parse_words (a ∷ b ∷ []) = invalid
parse_words (a ∷ b ∷ c ∷ []) = invalid
parse_words (a ∷ b ∷ c ∷ d ∷ []) = invalid
parse_words (a ∷ b ∷ c ∷ d ∷ e ∷ more) = as_parsed (parse_fields a b c d e)

unfoldable pub parse : Text → Parsed
unfolding parse_words
parse expression = parse_words (words expression)

-- `toString`
unfoldable pub to_string : CronExpression → Text
unfolding field_to_string
to_string c =
    field_to_string 59 c.minutes
    ++ (32
        ∷ (field_to_string 23 c.hours
            ++ (32
                ∷ (field_to_string 31 c.days_of_month
                    ++ (32
                        ∷ (field_to_string 12 c.months
                            ++ (32 ∷ field_to_string 6 c.days_of_week)))))))

-- A bitset reset to one bit; `none` is `std::out_of_range` from `set`.
pub checked_only : ℕ → ℤ → Option Bits
unfolding only
checked_only size (pos i) = if ltb i size then some (only size i) else none
checked_only size (negsuc i) = none

-- The factories.
unfoldable pub every_minute : CronExpression
unfolding set_all
every_minute = set_all

pub every_hour : CronExpression
unfolding set_all only
every_hour = record set_all { minutes = only 60 0 }

unfoldable pub daily : ℤ → ℤ → Option CronExpression
unfolding set_all checked_only
daily hour minute = then_with (checked_only 60 minute) λ minutes.
    then_with (checked_only 24 hour)
      λ hours. some (record set_all { minutes = minutes; hours = hours })

pub weekly : ℤ → ℤ → ℤ → Option CronExpression
unfolding daily checked_only
weekly day_of_week hour minute =
    then_with (daily hour minute)
      λ c. then_with (checked_only 7 day_of_week) λ days. some (record c { days_of_week = days })

pub monthly : ℤ → ℤ → ℤ → Option CronExpression
unfolding daily checked_only
monthly day_of_month hour minute =
    then_with (daily hour minute)
      λ c. then_with (checked_only 32 day_of_month) λ days. some (record c { days_of_month = days })

-- The setters of one value do nothing for a value out of range.
pub set_only : ℕ → ℕ → ℤ → Bits → Bits
unfolding only
set_only low size (pos i) bits = if leb low i && ltb i size then only size i else bits
set_only low size (negsuc i) bits = bits

pub minute : ℤ → CronExpression → CronExpression
unfolding set_only
minute value c = record c { minutes = set_only 0 60 value c.minutes }

pub hour : ℤ → CronExpression → CronExpression
unfolding set_only
hour value c = record c { hours = set_only 0 24 value c.hours }

pub day_of_month : ℤ → CronExpression → CronExpression
unfolding set_only
day_of_month value c = record c { days_of_month = set_only 1 32 value c.days_of_month }

pub month : ℤ → CronExpression → CronExpression
unfolding set_only
month value c = record c { months = set_only 1 13 value c.months }

pub day_of_week : ℤ → CronExpression → CronExpression
unfolding set_only
day_of_week value c = record c { days_of_week = set_only 0 7 value c.days_of_week }

-- The ranges. `none` is `std::out_of_range`: a loop that begins below 0 sets a bit that is not there.
pub range_bits : ℕ → ℤ → ℤ → Option Bits
unfolding set_from none_set
range_bits size (pos start) (pos finish) =
    some (set_from (size - start) start finish (none_set size))
range_bits size (pos start) (negsuc finish) = some (none_set size)
range_bits size (negsuc start) finish =
    if ltb_ℤ finish (negsuc start) then some (none_set size) else none

pub minute_range : ℤ → ℤ → CronExpression → Option CronExpression
unfolding range_bits
minute_range start finish c =
    then_with (range_bits 60 start finish) λ minutes. some (record c { minutes = minutes })

unfoldable pub hour_range : ℤ → ℤ → CronExpression → Option CronExpression
unfolding range_bits
hour_range start finish c =
    then_with (range_bits 24 start finish) λ hours. some (record c { hours = hours })
