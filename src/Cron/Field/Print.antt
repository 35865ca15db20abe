-- ===== src/Cron/Field/Print.antt =====
-- A field of a cron expression that is printed reads back, in src/cron_scheduler.cpp.
use pman.Common.{
  ℕ, ◌+◌, ◌-◌, ◌≤◌, ◌<◌, ◌≡◌, refl, sym, ap, ◌∙◌, true, false, List, [], ◌∷◌, ◌++◌, map, some,
  if◌then◌else◌, ◌==◌, length, All, Bool-cases, inl, inr, arith,
}
use pman.Cron.Text.{parts, join, decimal}
use pman.Cron.Text.Laws.{decimal-cases, from_chars-decimal, split_dash-decimal, parts-join}
use pman.Cron.Field.{
  Bits, set, none_set, set_from, with_value, parse_range, parse_part, then_with, parse_parts,
  is_star, parse_field, values_from, field_to_string,
}
use pman.Cron.Field.Bits.{set_all, set_all-values_from, values_from-lt, set_from-full}

parse_part-decimal :
    (max v : ℕ) (bits : Bits)
    → v ≤ max
    → max < 100
    → parse_part max (decimal v) bits ≡ some (set v bits)
unfolding parse_part
parse_part-decimal max v bits h k =
    ap (λ r. parse_range max (decimal v) r bits) (split_dash-decimal v (omega arith))
    ∙ ap (λ o. with_value max o bits) (from_chars-decimal v (omega arith))
    ∙ ground (arith, h)

parse_parts-decimal :
    (max : ℕ) (vs : List ℕ) (bits : Bits)
    → All (λ v. v < max + 1) vs
    → max < 100
    → parse_parts max (map decimal vs) bits ≡ some (set_all vs bits)
unfolding parse_parts set_all
parse_parts-decimal max [] bits h k = refl
parse_parts-decimal max (v ∷ vs) bits h k =
    ap (λ o. then_with o (parse_parts max (map decimal vs)))
      (parse_part-decimal max v bits (omega (arith, h.0)) k)
    ∙ parse_parts-decimal max vs (set v bits) h.1 k

is_star-join : (vs : List ℕ) → All (λ v. v < 100) vs → is_star (join vs) ≡ false
unfolding is_star join
is_star-join [] h = refl
is_star-join (v ∷ []) h =
    decimal-cases (λ t. is_star t ≡ false) (λ d l. ground arith) (λ d e l k. refl) v h.0
is_star-join (v ∷ w ∷ vs) h =
    decimal-cases (λ t. is_star (t ++ b',' ∷ join (w ∷ vs)) ≡ false) (λ d l. refl) (λ d e l k. refl)
      v h.0

-- The text of a bitset of `max + 1` bits is read back, also where no bit is set.
pub parse_field-field_to_string :
    (max : ℕ) (bits : Bits)
    → max < 100
    → length bits ≡ max + 1
    → parse_field max (field_to_string max bits) (none_set (max + 1)) ≡ some bits
unfolding parse_field field_to_string
parse_field-field_to_string max bits h l =
    elim (Bool-cases (length (values_from 0 bits) == max + 1)) [
      | inl t ↦ rw t (ap some (set_from-full max (max + 1 - 0) bits l (omega arith) (all_there t)))
      | inr t ↦ rw t (
          ap
            (λ b.
              if b
              then some (set_from (max + 1 - 0) 0 max (none_set (max + 1)))
              else parse_parts max (parts (join values)) (none_set (max + 1)))
            (is_star-join values small)
          ∙ ap (λ ps. parse_parts max ps (none_set (max + 1))) (parts-join values small)
          ∙ parse_parts-decimal max values (none_set (max + 1)) in_range h
          ∙ ap some (ap (λ n. set_all values (none_set n)) (sym l) ∙ set_all-values_from bits))
    ]
  where
    values : List ℕ
    values = values_from 0 bits

    in_range : All (λ v. v < max + 1) values
    in_range = values_from-lt 0 (max + 1) bits (omega (arith, l))

    small : All (λ v. v < 100) values
    small = values_from-lt 0 100 bits (omega (arith, l, h))

    all_there :
        (length (values_from 0 bits) == max + 1) ≡ true → length (values_from 0 bits) ≡ max + 1
    all_there t = ground (arith, t)
