-- ===== src/Sync/SeqLock.antt =====
-- `SeqLock` of include/pman/seqlock.hpp. What it protects is a list of words, which a writer writes one
-- at a time and the function of a reader copies one at a time, in order. `std::mutex` is a lock that one
-- thread has at a time; the sequence number does not wrap around.
pub mod Copies
mod Examples
use pman.Common.{
  ℕ, ◌+◌, ◌%◌, Bool, true, false, List, [], ◌∷◌, ◌++◌, Option, none, some, if◌then◌else◌, ◌==◌,
  replicate, length, modify,
}
use pman.Sync.Threads.{get_elem?, set}

-- Where a thread stands: outside; a writer with the mutex before the sequence number is odd, while it is,
-- and after; a reader before the load of the sequence number, with an even one and what it has
-- copied, and with a copy that it returns.
pub data Pc : Type 0 where
  outside : Pc
  locked : Pc
  writing : Pc
  leaving : Pc
  loading : Pc
  copying : ℕ → List ℕ → Pc
  returned : List ℕ → Pc

-- `published` are the words as each writer has left them, and as they were at first.
pub record SeqLock : Type 0 where
  pub seq : ℕ
  pub is_locked : Bool
  pub words : List ℕ
  pub published : List (List ℕ)
  pub threads : List Pc

abbrev pub start : List ℕ → ℕ → SeqLock
start words n = record {
  seq = 0;
  is_locked = false;
  words = words;
  published = words ∷ [];
  threads = replicate n outside;
}

-- A call of `lock` or of `read`, a write of a word, a call of `unlock`, or the next instruction.
pub data Event : Type 0 where
  lock : Event
  read : Event
  write : ℕ → ℕ → Event
  unlock : Event
  go : Event

abbrev pub place : ℕ → Pc → SeqLock → SeqLock
place i p s = record s { threads = set i p s.threads }

-- The reader has the next word, or has come to the end and loads the sequence number again.
pub copy_found : Option ℕ → ℕ → List ℕ → ℕ → SeqLock → SeqLock
copy_found (some w) version copy i s = place i (copying version (copy ++ (w ∷ []))) s
copy_found none version copy i s = place i (if s.seq == version then returned copy else loading) s

pub go_on : Pc → ℕ → SeqLock → SeqLock
unfolding copy_found
go_on outside i s = s
go_on locked i s = place i writing (record s { seq = s.seq + 1 })
go_on writing i s = s
go_on leaving i s = place i outside (record s { is_locked = false })
go_on loading i s = place i (if s.seq % 2 == 1 then loading else copying s.seq []) s
go_on (copying version copy) i s = copy_found (get_elem? s.words (length copy)) version copy i s
go_on (returned copy) i s = place i outside s

pub move : Event → Pc → ℕ → SeqLock → SeqLock
unfolding go_on
move go p i s = go_on p i s
move lock outside i s = if s.is_locked then s else place i locked (record s { is_locked = true })
move read outside i s = place i loading s
move (write j w) writing i s = record s { words = modify j (λ x. w) s.words }
move unlock writing i s =
    place i leaving (record s { seq = s.seq + 1; published = s.words ∷ s.published })
move e p i s = s

pub move_found : Option Pc → Event → ℕ → SeqLock → SeqLock
unfolding move
move_found none e i s = s
move_found (some p) e i s = move e p i s

pub step : Event → ℕ → SeqLock → SeqLock
unfolding move_found
step e i s = move_found (get_elem? s.threads i) e i s

pub run : List (Event × ℕ) → SeqLock → SeqLock
unfolding step
run [] s = s
run ((e, i) ∷ xs) s = run xs (step e i s)
