-- ===== src/Async/Channel/Examples.antt =====
-- The channel of include/pman/async/channel.hpp on short histories. The values are numbers, and a
-- number that has been moved from is 0.
use pman.Common.{ℕ, ◌≤◌, ◌≡◌, ◌⊎◌, refl, length, true, false, List, [], ◌∷◌, ◌++◌, none, some}
use pman.Async.Channel.System.{Event, sends, tries, recvs, closes, turns, init, step, run}
use pman.Async.Channel.{send}
use pman.Async.Channel.Queue.{values, count_receivers}
use pman.Async.Channel.Ends.{Sent}
use pman.Async.Channel.Delivery.{channel-fifo, send-branches}

abbrev emptied : ℕ → ℕ
emptied v = 0

-- A channel for one value holds 5; the sender of 6 waits.
abbrev full : List (Event ℕ)
full = sends 1 5 ∷ sends 2 6 ∷ []

passed : (run emptied (init 1) (full ++ recvs 3 ∷ recvs 4 ∷ turns ∷ [])).delivered ≡ 5 ∷ 0 ∷ []
unfolding run step
passed = refl

-- The value was taken by coroutine 2 before the woken coroutine 1 runs: `recv` returns `nullopt`.
stolen :
    (run emptied (init 1) (recvs 1 ∷ tries 7 ∷ recvs 2 ∷ turns ∷ [])).received
    ≡ (2, some 7) ∷ (1, none) ∷ []
unfolding run step
stolen = refl

-- A sender whose value has joined the buffer is told false, because the channel is closed meanwhile.
told_false :
    (run emptied (init 1) (full ++ recvs 3 ∷ closes ∷ turns ∷ [])).answers
    ≡ (1, true) ∷ (2, false) ∷ []
unfolding run step
told_false = refl

channel-fifo_example :
    let s = run emptied (init 1) full in
    (s.offered ≡ s.delivered ++ ((s.chan.buffer ++ values s.chan.send_waiters) ++ s.dropped))
    × ((s.chan.closed ≡ true) ⊎ (s.dropped ≡ []))
    × (length s.chan.buffer ≤ 1)
channel-fifo_example = channel-fifo emptied 1 full

send-branches_example :
    let s = run emptied (init 1) full in
    Sent s.chan (count_receivers s.posted) 8 0 (send emptied 9 8 s.chan)
send-branches_example = send-branches emptied 1 full 9 8

-- Coroutine 1 is posted for a value that coroutine 2 has taken.
abbrev overtaken : List (Event ℕ)
overtaken = recvs 1 ∷ tries 7 ∷ recvs 2 ∷ []
