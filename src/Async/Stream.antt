-- ===== src/Async/Stream.antt =====
-- include/pman/async/stream.hpp: lazy sequences and their combinators. A stream is a state and its
-- `next`; the stream that a combinator draws from is part of its state. `next` runs whole: what the
-- source awaits on the way is the source's.
pub mod Sequence
pub mod Pipeline
mod Examples
use pman.Common.{
  ℕ, zero, suc, ◌+◌, ◌-◌, Bool, true, false, List, [], ◌∷◌, ◌++◌, Option, none, some, if◌then◌else◌,
  ltb, leb, length,
}

-- What `next` returns: a value, or `std::nullopt`; or its loop has used up its fuel.
pub data Pull {ℓ} (A : Type ℓ) : Type ℓ where
  item : A → Pull A
  exhausted : Pull A
  unfinished : Pull A

abbrev pub Next {ℓ κ} : Type ℓ → Type κ → Type (ℓ ⊔ κ)
Next A S = S → Pull A × S

-- `VectorStream`
pub record VectorStream {ℓ} (A : Type ℓ) : Type ℓ where
  pub values : List A
  pub index : ℕ

pub at {ℓ} : {A : Type ℓ} → List A → ℕ → Pull A
at [] i = exhausted
at (x ∷ xs) zero = item x
at (x ∷ xs) (suc i) = at xs i

abbrev pub from_vector {ℓ} : {A : Type ℓ} → List A → VectorStream A
from_vector values = record { values = values; index = 0 }

pub vector_next {ℓ} : {A : Type ℓ} → Next A (VectorStream A)
unfolding at
vector_next s =
    if ltb s.index (length s.values)
    then (at s.values s.index, record s { index = s.index + 1 })
    else (exhausted, s)

-- `MapStream`
pub mapped {ℓ κ} : {A : Type ℓ} {U : Type κ} → (A → U) → Pull A → Pull U
mapped func (item a) = item (func a)
mapped func exhausted = exhausted
mapped func unfinished = unfinished

pub map_next {ℓ κ μ} : {A : Type ℓ} {U : Type κ} {S : Type μ} → (A → U) → Next A S → Next U S
unfolding mapped
map_next func next source = let r = next source in (mapped func r.0, r.1)

-- `FilterStream`, whose loop makes one round for each value that it drops.
pub filter_found {ℓ κ} : {A : Type ℓ} {S : Type κ} → (A → Bool) → Pull A → S → Next A S → Pull A × S
filter_found pred (item a) source rest = if pred a then (item a, source) else rest source
filter_found pred exhausted source rest = (exhausted, source)
filter_found pred unfinished source rest = (unfinished, source)

pub filter_next {ℓ κ} : {A : Type ℓ} {S : Type κ} → ℕ → (A → Bool) → Next A S → Next A S
unfolding filter_found
filter_next zero pred next source = (unfinished, source)
filter_next (suc n) pred next source =
    let r = next source in filter_found pred r.0 r.1 (filter_next n pred next)

-- `TakeStream`
pub record TakeStream {ℓ} (S : Type ℓ) : Type ℓ where
  pub source : S
  pub n : ℕ
  pub count : ℕ

abbrev pub take_of {ℓ} : {S : Type ℓ} → ℕ → S → TakeStream S
take_of n source = record { source = source; n = n; count = 0 }

pub take_next {ℓ κ} : {A : Type ℓ} {S : Type κ} → Next A S → Next A (TakeStream S)
take_next next s =
    let r = next s.source in
    if leb s.n s.count
    then (exhausted, s)
    else (r.0, record s { source = r.1; count = s.count + 1 })

-- `SkipStream`; the loop is by recursion on the number that is left to skip.
pub record SkipStream {ℓ} (S : Type ℓ) : Type ℓ where
  pub source : S
  pub n : ℕ
  pub skipped : ℕ

abbrev pub skip_of {ℓ} : {S : Type ℓ} → ℕ → S → SkipStream S
skip_of n source = record { source = source; n = n; skipped = 0 }

pub skip_found {ℓ κ} :
    {A : Type ℓ} {S : Type κ}
    → Pull A
    → SkipStream S
    → Next A (SkipStream S)
    → Pull A × SkipStream S
skip_found (item a) s rest = rest (record s { skipped = s.skipped + 1 })
skip_found exhausted s rest = (exhausted, s)
skip_found unfinished s rest = (unfinished, s)

pub skip_left {ℓ κ} : {A : Type ℓ} {S : Type κ} → ℕ → Next A S → Next A (SkipStream S)
unfolding skip_found
skip_left zero next s = let r = next s.source in (r.0, record s { source = r.1 })
skip_left (suc left) next s =
    let r = next s.source in skip_found r.0 (record s { source = r.1 }) (skip_left left next)

pub skip_next {ℓ κ} : {A : Type ℓ} {S : Type κ} → Next A S → Next A (SkipStream S)
unfolding skip_left
skip_next next s = skip_left (s.n - s.skipped) next s

-- `TakeWhileStream`
pub record TakeWhileStream {ℓ} (S : Type ℓ) : Type ℓ where
  pub source : S
  pub finished : Bool

abbrev pub take_while_of {ℓ} : {S : Type ℓ} → S → TakeWhileStream S
take_while_of source = record { source = source; finished = false }

pub take_while_found {ℓ κ} :
    {A : Type ℓ} {S : Type κ} → (A → Bool) → Pull A → S → Pull A × TakeWhileStream S
take_while_found pred (item a) source =
    if pred a
    then (item a, take_while_of source)
    else (exhausted, record { source = source; finished = true })
take_while_found pred exhausted source = (exhausted, record { source = source; finished = true })
take_while_found pred unfinished source = (unfinished, take_while_of source)

pub take_while_next {ℓ κ} :
    {A : Type ℓ} {S : Type κ} → (A → Bool) → Next A S → Next A (TakeWhileStream S)
unfolding take_while_found
take_while_next pred next s =
    let r = next s.source in if s.finished then (exhausted, s) else take_while_found pred r.0 r.1

-- `ChainStream`
pub record ChainStream {ℓ κ} (S : Type ℓ) (T : Type κ) : Type (ℓ ⊔ κ) where
  pub first : S
  pub second : T
  pub on_second : Bool

abbrev pub chain_of {ℓ κ} : {S : Type ℓ} {T : Type κ} → S → T → ChainStream S T
chain_of first second = record { first = first; second = second; on_second = false }

module _ {ℓ κ μ} {A : Type ℓ} {S : Type κ} {T : Type μ} where
  pub chain_second : Next A T → Next A (ChainStream S T)
  chain_second next s = let r = next s.second in (r.0, record s { second = r.1; on_second = true })

  pub chain_found : Pull A → ChainStream S T → Next A (ChainStream S T) → Pull A × ChainStream S T
  chain_found (item a) s rest = (item a, s)
  chain_found exhausted s rest = rest s
  chain_found unfinished s rest = (unfinished, s)

  pub chain_next : Next A S → Next A T → Next A (ChainStream S T)
  unfolding chain_second chain_found
  chain_next next next' s =
      let r = next s.first in
      if s.on_second
      then chain_second next' s
      else chain_found r.0 (record s { first = r.1 }) (chain_second next')

-- `collect`, and `count`; `none` where the fuel is used up.
pub collect_found {ℓ} : {A : Type ℓ} → Pull A → Option (List A) → Option (List A)
collect_found (item a) (some xs) = some (a ∷ xs)
collect_found (item a) none = none
collect_found exhausted rest = some []
collect_found unfinished rest = none

pub collect {ℓ κ} : {A : Type ℓ} {S : Type κ} → ℕ → Next A S → S → Option (List A)
unfolding collect_found
collect zero next s = none
collect (suc n) next s = let r = next s in collect_found r.0 (collect n next r.1)

pub count_found {ℓ} : {A : Type ℓ} → Pull A → Option ℕ → Option ℕ
count_found (item a) (some n) = some (n + 1)
count_found (item a) none = none
count_found exhausted rest = some 0
count_found unfinished rest = none

pub count {ℓ κ} : {A : Type ℓ} {S : Type κ} → ℕ → Next A S → S → Option ℕ
unfolding count_found
count zero next s = none
count (suc n) next s = let r = next s in count_found r.0 (count n next r.1)
