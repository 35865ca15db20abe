-- ===== src/Cron/Text/Laws.antt =====
-- What the text of a field reads back as, in src/cron_scheduler.cpp.
use pman.Common.{
  ℕ, ◌+◌, ◌/◌, ◌%◌, ◌<◌, ◌≡◌, refl, ap, ◌∙◌, false, List, [], ◌∷◌, ◌++◌, map, none, some, ltb, ◌==◌,
  All, Bool-cases, inl, inr, arith,
}
use pman.Common.Int.{pos}
use pman.Cron.Text.{
  Text, is_space, decimal, from_chars, cons_head, parts, split_dash, goes_on, words, join,
}

-- The text of a number below 100 is one digit or two.
module _ (P : Text → Type 0) (one : (d : ℕ) → d < 10 → P ((b'0' + d) ∷ []))
    (two : (d e : ℕ) → d < 10 → e < 10 → P ((b'0' + d) ∷ (b'0' + e) ∷ [])) where
  pub decimal-cases : (n : ℕ) → n < 100 → P (decimal n)
  unfolding decimal
  decimal-cases n h = elim (Bool-cases (ltb n 10)) [
    | inl t ↦ rw t (one n (ground (arith, t)))
    | inr t ↦ rw t (two (n / 10) (n % 10) (omega arith) (omega arith))
  ]

-- A number below 100 is read back.
pub from_chars-decimal : (n : ℕ) → n < 100 → from_chars (decimal n) ≡ some (pos n)
unfolding from_chars decimal
from_chars-decimal n h = elim (Bool-cases (ltb n 10)) [
  | inl t ↦ rw t (ground (arith, t))
  | inr t ↦ rw t (ground (arith, t))
]

pub split_dash-decimal : (n : ℕ) → n < 100 → split_dash (decimal n) ≡ none
unfolding split_dash
split_dash-decimal n h =
    decimal-cases (λ t. split_dash t ≡ none) (λ d l. ground arith) (λ d e l k. ground arith) n h

-- No character of a text is a comma, and none is a space.
abbrev pub NoComma : Text → Type 0
NoComma t = All (λ c. (c == b',') ≡ false) t

abbrev pub NoSpace : Text → Type 0
NoSpace t = All (λ c. is_space c ≡ false) t

abbrev pub IsFilled : Text → Type 0
IsFilled [] = ⊥
IsFilled (c ∷ cs) = Unit {0}

decimal-NoComma : (n : ℕ) → n < 100 → NoComma (decimal n)
decimal-NoComma n h =
    decimal-cases (λ t. NoComma t) (λ d l. (ground arith, tt))
      (λ d e l k. (ground arith, (ground arith, tt))) n h

decimal-NoSpace : (n : ℕ) → n < 100 → NoSpace (decimal n)
unfolding is_space
decimal-NoSpace n h =
    decimal-cases (λ t. NoSpace t) (λ d l. (ground arith, tt))
      (λ d e l k. (ground arith, (ground arith, tt))) n h

decimal-IsFilled : (n : ℕ) → n < 100 → IsFilled (decimal n)
decimal-IsFilled n h = decimal-cases (λ t. IsFilled t) (λ d l. tt) (λ d e l k. tt) n h

-- A part ends at a comma, or at the end of the text.
parts-comma : (t rest : Text) → NoComma t → parts (t ++ b',' ∷ rest) ≡ t ∷ parts rest
unfolding parts
parts-comma [] rest h = refl
parts-comma (c ∷ cs) rest h = rw (h.0, parts-comma cs rest h.1) refl

parts-end : (t : Text) → NoComma t → IsFilled t → parts t ≡ t ∷ []
unfolding parts
parts-end [] h f = elim f [ ]
parts-end (c ∷ []) h f = rw (h.0) refl
parts-end (c ∷ d ∷ cs) h f = rw (h.0) (ap (cons_head c) (parts-end (d ∷ cs) h.1 tt))

pub parts-join : (vs : List ℕ) → All (λ v. v < 100) vs → parts (join vs) ≡ map decimal vs
unfolding join parts
parts-join [] h = refl
parts-join (v ∷ []) h = parts-end (decimal v) (decimal-NoComma v h.0) (decimal-IsFilled v h.0)
parts-join (v ∷ w ∷ vs) h =
    parts-comma (decimal v) (join (w ∷ vs)) (decimal-NoComma v h.0)
    ∙ ap (λ ps. decimal v ∷ ps) (parts-join (w ∷ vs) h.1)

NoSpace-append : (t u : Text) → NoSpace t → NoSpace u → NoSpace (t ++ u)
NoSpace-append [] u h k = k
NoSpace-append (c ∷ t) u h k = (h.0, NoSpace-append t u h.1 k)

pub star-NoSpace : NoSpace (b'*' ∷ [])
unfolding is_space
star-NoSpace = (refl, tt)

comma-NoSpace : is_space b',' ≡ false
unfolding is_space
comma-NoSpace = refl

pub join-NoSpace : (vs : List ℕ) → All (λ v. v < 100) vs → NoSpace (join vs)
unfolding join
join-NoSpace [] h = tt
join-NoSpace (v ∷ []) h = decimal-NoSpace v h.0
join-NoSpace (v ∷ w ∷ vs) h =
    NoSpace-append (decimal v) _ (decimal-NoSpace v h.0) (comma-NoSpace, join-NoSpace (w ∷ vs) h.1)

pub join-IsFilled : (v : ℕ) (vs : List ℕ) → v < 100 → IsFilled (join (v ∷ vs))
unfolding join
join-IsFilled v [] h = decimal-IsFilled v h
join-IsFilled v (w ∷ vs) h =
    decimal-cases (λ t. IsFilled (t ++ b',' ∷ join (w ∷ vs))) (λ d l. tt) (λ d e l k. tt) v h

words_step :
    (c d : ℕ) (cs : Text)
    → is_space c ≡ false
    → is_space d ≡ false
    → words (c ∷ d ∷ cs) ≡ cons_head c (words (d ∷ cs))
unfolding words goes_on
words_step c d cs h k = rw (h, k) refl

-- A word ends at a space, or at the end of the text.
pub words-space : (t rest : Text) → NoSpace t → IsFilled t → words (t ++ 32 ∷ rest) ≡ t ∷ words rest
unfolding words
words-space [] rest h f = elim f [ ]
words-space (c ∷ []) rest h f = rw (h.0) refl
words-space (c ∷ d ∷ cs) rest h f =
    words_step c d (cs ++ 32 ∷ rest) h.0 h.1.0 ∙ ap (cons_head c) (words-space (d ∷ cs) rest h.1 tt)

pub words-end : (t : Text) → NoSpace t → IsFilled t → words t ≡ t ∷ []
unfolding words
words-end [] h f = elim f [ ]
words-end (c ∷ []) h f = rw (h.0) refl
words-end (c ∷ d ∷ cs) h f =
    words_step c d cs h.0 h.1.0 ∙ ap (cons_head c) (words-end (d ∷ cs) h.1 tt)
