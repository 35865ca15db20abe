-- ===== src/Cron/Expression/Print.antt =====
-- A cron expression that is printed reads back, in src/cron_scheduler.cpp.
use pman.Common.{
  ℕ, ◌+◌, ◌<◌, ◌≡◌, refl, ap, ◌∙◌, List, [], ◌∷◌, ◌++◌, some, ◌==◌, length, All, Bool-cases, inl,
  inr, arith,
}
use pman.Cron.Text.{Text, words, join}
use pman.Cron.Text.Laws.{
  NoSpace, IsFilled, star-NoSpace, join-NoSpace, join-IsFilled, words-space, words-end,
}
use pman.Cron.Field.{Bits, none_set, parse_field, values_from, field_to_string}
use pman.Cron.Field.Bits.{values_from-lt}
use pman.Cron.Field.Print.{parse_field-field_to_string}
use pman.Cron.Expression.{
  CronExpression, parsed, parse_fields, as_parsed, parse_words, parse, to_string,
}

-- A bitset has its size, and some bit is set.
abbrev pub IsField : ℕ → Bits → Type 0
IsField size bits = (length bits ≡ size) × (0 < length (values_from 0 bits))

pub record IsPrintable (c : CronExpression) : Type 0 where
  pub minutes : IsField 60 c.minutes
  pub hours : IsField 24 c.hours
  pub days_of_month : IsField 32 c.days_of_month
  pub months : IsField 13 c.months
  pub days_of_week : IsField 7 c.days_of_week

filled : (vs : List ℕ) → All (λ v. v < 100) vs → 0 < length vs → IsFilled (join vs)
filled [] h l = elim l [ ]
filled (v ∷ vs) h l = join-IsFilled v vs h.0

field-word :
    (max : ℕ) (bits : Bits)
    → max < 100
    → IsField (max + 1) bits
    → NoSpace (field_to_string max bits) × IsFilled (field_to_string max bits)
unfolding field_to_string
field-word max bits h f = elim (Bool-cases (length (values_from 0 bits) == max + 1)) [
  | inl t ↦ rw t (star-NoSpace, tt)
  | inr t ↦ rw t (join-NoSpace _ small, filled _ small f.1)
]
  where
    small : All (λ v. v < 100) (values_from 0 bits)
    small = values_from-lt 0 100 bits (omega (arith, f.0, h))

parse_fields-some :
    (a b c d e : Text) (x : CronExpression)
    → parse_field 59 a (none_set 60) ≡ some x.minutes
    → parse_field 23 b (none_set 24) ≡ some x.hours
    → parse_field 31 c (none_set 32) ≡ some x.days_of_month
    → parse_field 12 d (none_set 13) ≡ some x.months
    → parse_field 6 e (none_set 7) ≡ some x.days_of_week
    → parse_fields a b c d e ≡ some x
unfolding parse_fields
parse_fields-some a b c d e x h1 h2 h3 h4 h5 = rw (h1, h2, h3, h4, h5) refl

five_words :
    (a b c d e : Text)
    → NoSpace a × IsFilled a
    → NoSpace b × IsFilled b
    → NoSpace c × IsFilled c
    → NoSpace d × IsFilled d
    → NoSpace e × IsFilled e
    → words (a ++ (32 ∷ (b ++ (32 ∷ (c ++ (32 ∷ (d ++ (32 ∷ e)))))))) ≡ a ∷ b ∷ c ∷ d ∷ e ∷ []
five_words a b c d e ha hb hc hd he =
    words-space a _ ha.0 ha.1
    ∙ ap (λ ws. a ∷ ws) (words-space b _ hb.0 hb.1)
    ∙ ap (λ ws. a ∷ b ∷ ws) (words-space c _ hc.0 hc.1)
    ∙ ap (λ ws. a ∷ b ∷ c ∷ ws) (words-space d e hd.0 hd.1)
    ∙ ap (λ ws. a ∷ b ∷ c ∷ d ∷ ws) (words-end e he.0 he.1)

-- An expression of which each field has its size and some bit is what its text is parsed to.
pub parse-to_string : (c : CronExpression) → IsPrintable c → parse (to_string c) ≡ parsed c
unfolding parse to_string
parse-to_string c p =
    ap parse_words (
      five_words (field_to_string 59 c.minutes) (field_to_string 23 c.hours)
        (field_to_string 31 c.days_of_month) (field_to_string 12 c.months)
        (field_to_string 6 c.days_of_week) (field-word 59 c.minutes (omega arith) p.minutes)
        (field-word 23 c.hours (omega arith) p.hours)
        (field-word 31 c.days_of_month (omega arith) p.days_of_month)
        (field-word 12 c.months (omega arith) p.months)
        (field-word 6 c.days_of_week (omega arith) p.days_of_week))
    ∙ ap as_parsed (
        parse_fields-some (field_to_string 59 c.minutes) (field_to_string 23 c.hours)
          (field_to_string 31 c.days_of_month) (field_to_string 12 c.months)
          (field_to_string 6 c.days_of_week) c
          (parse_field-field_to_string 59 c.minutes (omega arith) p.minutes.0)
          (parse_field-field_to_string 23 c.hours (omega arith) p.hours.0)
          (parse_field-field_to_string 31 c.days_of_month (omega arith) p.days_of_month.0)
          (parse_field-field_to_string 12 c.months (omega arith) p.months.0)
          (parse_field-field_to_string 6 c.days_of_week (omega arith) p.days_of_week.0))
