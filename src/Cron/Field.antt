-- ===== src/Cron/Field.antt =====
-- One field of a cron expression in src/cron_scheduler.cpp: a `std::bitset` is the list of its bits.
pub mod Bits
pub mod Print
use pman.Common.{
  ℕ, zero, suc, ◌+◌, ◌-◌, Bool, true, false, List, [], ◌∷◌, Option, none, some, if◌then◌else◌, leb,
  ◌==◌, length, get_or, modify, replicate,
}
use pman.Common.Int.{ℤ, pos, negsuc}
use pman.Cron.Text.{Text, from_chars, parts, split_dash, join}

abbrev pub Bits : Type 0
Bits = List Bool

-- `set`, which is called in range only, and `test`.
unfoldable pub set : ℕ → Bits → Bits
set i bits = modify i (λ b. true) bits

unfoldable pub test : ℕ → Bits → Bool
test i bits = get_or bits i false

-- A bitset of which no bit is set, and one with one bit.
unfoldable pub none_set : ℕ → Bits
none_set size = replicate size false

unfoldable pub only : ℕ → ℕ → Bits
unfolding set none_set
only size i = set i (none_set size)

-- `for (i = start; i <= finish && i <= max; ++i) set(i)`, with the rounds that `max` leaves.
unfoldable pub set_from : ℕ → ℕ → ℕ → Bits → Bits
unfolding set
set_from zero i finish bits = bits
set_from (suc rounds) i finish bits =
    if leb i finish then set_from rounds (i + 1) finish (set i bits) else bits

unfoldable pub set_range : ℕ → ℤ → ℤ → Bits → Bits
unfolding set_from
set_range max (pos start) (pos finish) bits = set_from (max + 1 - start) start finish bits
set_range max start finish bits = bits

pub set_value : ℕ → ℤ → Bits → Bits
unfolding set
set_value max (pos v) bits = if leb v max then set v bits else bits
set_value max (negsuc v) bits = bits

-- The two numbers of a range, and the number of any other part. `none` is a number that is read
-- although `std::from_chars` left it uninitialised.
pub with_range : ℕ → Option ℤ → Option ℤ → Bits → Option Bits
unfolding set_range
with_range max (some start) (some finish) bits = some (set_range max start finish bits)
with_range max none finish bits = none
with_range max (some start) none bits = none

pub with_value : ℕ → Option ℤ → Bits → Option Bits
unfolding set_value
with_value max (some v) bits = some (set_value max v bits)
with_value max none bits = none

pub parse_range : ℕ → Text → Option (Text × Text) → Bits → Option Bits
unfolding with_range with_value
parse_range max part (some r) bits = with_range max (from_chars r.0) (from_chars r.1) bits
parse_range max part none bits = with_value max (from_chars part) bits

pub parse_part : ℕ → Text → Bits → Option Bits
unfolding parse_range
parse_part max part bits = parse_range max part (split_dash part) bits

abbrev pub then_with {ℓ κ} : {A : Type ℓ} {B : Type κ} → Option A → (A → Option B) → Option B
then_with none f = none
then_with (some a) f = f a

unfoldable pub parse_parts : ℕ → List Text → Bits → Option Bits
unfolding parse_part
parse_parts max [] bits = some bits
parse_parts max (p ∷ ps) bits = then_with (parse_part max p bits) (parse_parts max ps)

pub is_star : Text → Bool
is_star [] = false
is_star (c ∷ []) = c == b'*'
is_star (c ∷ d ∷ cs) = false

-- `parseField` on a bitset of `max + 1` bits.
unfoldable pub parse_field : ℕ → Text → Bits → Option Bits
unfolding is_star parse_parts set_range
parse_field max field bits =
    let listed = parse_parts max (parts field) bits in
    if is_star field then some (set_range max (pos 0) (pos max) bits) else listed

-- `fieldToString`
unfoldable pub values_from : ℕ → Bits → List ℕ
values_from i [] = []
values_from i (b ∷ bs) = if b then i ∷ values_from (i + 1) bs else values_from (i + 1) bs

unfoldable pub field_to_string : ℕ → Bits → Text
unfolding values_from
field_to_string max bits =
    let values = values_from 0 bits in if length values == max + 1 then b'*' ∷ [] else join values
