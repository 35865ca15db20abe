-- ===== src/Limiter/Window/Calls.antt =====
-- The limit of the sliding window of src/rate_limiter.cpp over all three of its calls.
use pman.Common.{ℕ, ◌≤◌, List, [], ◌∷◌}
use pman.Limiter.Window.{Steady, clock, Turn, Call, tries, acquires, tries_for}

-- The clock does not go back over the turns of a call, and over a history of calls.
abbrev pub TurnsSteady : ℕ → List Turn → Type 0
TurnsSteady last [] = Unit {0}
TurnsSteady last (t ∷ ts) =
    Steady last t.others
    × (clock last t.others ≤ t.now)
    × (t.now ≤ t.stamp)
    × TurnsSteady t.stamp ts

abbrev pub turns_clock : ℕ → List Turn → ℕ
turns_clock last [] = last
turns_clock last (t ∷ ts) = turns_clock t.stamp ts

abbrev pub CallsSteady : ℕ → List Call → Type 0
CallsSteady last [] = Unit {0}
CallsSteady last (tries now stamp ∷ cs) = (last ≤ now) × (now ≤ stamp) × CallsSteady stamp cs
CallsSteady last (acquires ts ∷ cs) = TurnsSteady last ts × CallsSteady (turns_clock last ts) cs
CallsSteady last (tries_for deadline ts ∷ cs) =
    TurnsSteady last ts × CallsSteady (turns_clock last ts) cs
