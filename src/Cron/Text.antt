-- ===== src/Cron/Text.antt =====
-- The text side of src/cron_scheduler.cpp: characters are their codes. `std::from_chars` gives
-- `none` where it leaves the number as it is: there is no digit, or the number is no `int`.
pub mod Laws
use pman.Common.{
  ℕ, zero, suc, ◌+◌, ◌-◌, ◌*◌, ◌/◌, ◌%◌, ◌^◌, Bool, true, false, List, [], ◌∷◌, ◌++◌, Option, none,
  some, if◌then◌else◌, ltb, leb, ◌==◌, ◌&&◌, ◌||◌, not,
}
use pman.Common.Int.{ℤ, pos, negsuc, sub_ℕ}

abbrev pub Text : Type 0
Text = List ℕ

pub is_digit : ℕ → Bool
is_digit c = leb b'0' c && leb c b'9'

-- The whitespace that `>>` skips and stops at.
pub is_space : ℕ → Bool
is_space c = c == 32 || (leb 9 c && leb c 13)

-- `s << value` for a value below 100.
unfoldable pub decimal : ℕ → Text
decimal n = if ltb n 10 then (b'0' + n) ∷ [] else (b'0' + n / 10) ∷ (b'0' + n % 10) ∷ []

pub read_digits : Option ℕ → Text → Option ℕ
unfolding is_digit
read_digits sofar [] = sofar
read_digits sofar (c ∷ cs) =
    if is_digit c
    then read_digits (some (elim sofar [ none ↦ c - b'0' | some n ↦ 10 * n + (c - b'0') ])) cs
    else sofar

pub in_int : Option ℕ → ℕ → Option ℕ
in_int none limit = none
in_int (some n) limit = if leb n limit then some n else none

pub negated : Option ℕ → Option ℤ
negated none = none
negated (some n) = some (sub_ℕ 0 n)

pub as_int : Option ℕ → Option ℤ
as_int none = none
as_int (some n) = some (pos n)

unfoldable pub from_chars : Text → Option ℤ
unfolding read_digits in_int negated as_int
from_chars [] = none
from_chars (c ∷ cs) =
    if c == b'-'
    then negated (in_int (read_digits none cs) (2 ^ 31))
    else as_int (in_int (read_digits none (c ∷ cs)) (2 ^ 31 - 1))

-- The parts between commas, as the loop over `field.find(',', pos)` takes them; nothing follows a
-- comma at the end.
pub cons_head : ℕ → List Text → List Text
cons_head c [] = (c ∷ []) ∷ []
cons_head c (p ∷ ps) = (c ∷ p) ∷ ps

unfoldable pub parts : Text → List Text
unfolding cons_head
parts [] = []
parts (c ∷ cs) = if c == b',' then [] ∷ parts cs else cons_head c (parts cs)

-- `part.find('-')`, with the text before the dash and the text after it.
pub extend : ℕ → Option (Text × Text) → Option (Text × Text)
extend c none = none
extend c (some r) = some (c ∷ r.0, r.1)

unfoldable pub split_dash : Text → Option (Text × Text)
unfolding extend
split_dash [] = none
split_dash (c ∷ cs) = if c == b'-' then some ([], cs) else extend c (split_dash cs)

-- The words that repeated `>>` takes from the text.
pub goes_on : Text → Bool
unfolding is_space
goes_on [] = false
goes_on (c ∷ cs) = not (is_space c)

unfoldable pub words : Text → List Text
unfolding is_space cons_head goes_on
words [] = []
words (c ∷ cs) =
    let rest = words cs in
    if is_space c then rest else (if goes_on cs then cons_head c rest else (c ∷ []) ∷ rest)

-- The values of a field with commas between them.
unfoldable pub join : List ℕ → Text
unfolding decimal
join [] = []
join (v ∷ []) = decimal v
join (v ∷ w ∷ vs) = decimal v ++ b',' ∷ join (w ∷ vs)
