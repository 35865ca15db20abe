-- ===== src/Async/Channel/Delivery.antt =====
-- What a channel of include/pman/async/channel.hpp promises its senders and receivers, and where
-- it keeps less than its comments say.
use pman.Common.{ℕ, ◌≤◌, ◌≡◌, ◌⊎◌, true, false, List, [], ◌∷◌, ◌++◌, length, none, arith}
use pman.Async.Channel.{Turn, receiver, send, recv}
use pman.Async.Channel.Queue.{values, count_receivers}
use pman.Async.Channel.Ends.{Sent, send-Sent, Received, recv-Received}
use pman.Async.Channel.System.{System, Event, turns, init, step, run}
use pman.Async.Channel.Laws.{reached-IsValid}

module _ {T : Type 0} (moved : T → T) (cap : ℕ) (es : List (Event T)) where
  -- After any history of a channel made with capacity `cap`: the values that entered it are, in
  -- order, those delivered, those in the buffer, those of the senders that wait and those dropped
  -- by `close`; nothing is dropped while the channel is open, and the buffer never exceeds `cap`.
  pub channel-fifo :
      let s = run moved (init cap) es in
      (s.offered ≡ s.delivered ++ ((s.chan.buffer ++ values s.chan.send_waiters) ++ s.dropped))
      × ((s.chan.closed ≡ true) ⊎ (s.dropped ≡ []))
      × (length s.chan.buffer ≤ cap)
  channel-fifo =
      let v = reached-IsValid moved cap es in
      (v.tally.fifo, v.tally.quiet, ground (arith, v.sound.bounded, v.tally.capped))

  -- After any history a sender waits only while the buffer is full, a receiver waits only while
  -- each value in the buffer has a posted receiver to take it, and on a closed channel nobody waits.
  pub channel-waiters :
      let s = run moved (init cap) es in
      ((s.chan.send_waiters ≡ []) ⊎ (length s.chan.buffer ≡ cap))
      × ((s.chan.recv_waiters ≡ []) ⊎ (length s.chan.buffer ≤ count_receivers s.posted))
      × ((s.chan.closed ≡ false) ⊎ (s.chan.send_waiters ≡ []))
      × ((s.chan.closed ≡ false) ⊎ (s.chan.recv_waiters ≡ []))
  channel-waiters =
      let v = reached-IsValid moved cap es in
      let full : (length (run moved (init cap) es).chan.buffer ≤ cap) =
        ground (arith, v.sound.bounded, v.tally.capped) in
      (
        ground (arith, v.sound.full, v.tally.capped),
        v.sound.awake,
        v.sound.no_sender,
        v.sound.no_receiver,
      )

  -- A coroutine that calls `send v` after any history: on an open channel with room `v` joins the
  -- queue and the result is true; on a closed channel nothing changes and the result is false; on
  -- an open channel that is full the coroutine waits, and what joins the queue is what a move
  -- leaves of `v`, not `v`.
  pub send-branches :
      (h : ℕ) (v : T)
      → let s = run moved (init cap) es in
        Sent s.chan (count_receivers s.posted) v (moved v) (send moved h v s.chan)
  send-branches h v =
      let s = run moved (init cap) es in
      send-Sent moved s.chan (count_receivers s.posted) h v (reached-IsValid moved cap es).sound

  -- A coroutine that calls `recv` after any history: the oldest value is returned if the buffer
  -- holds one; on a closed channel with an empty buffer the result is `nullopt` and nothing
  -- changes; on an open channel with an empty buffer the coroutine waits.
  pub recv-branches :
      (h : ℕ)
      → let s = run moved (init cap) es in
        Received s.chan (count_receivers s.posted) (recv h s.chan)
  recv-branches h =
      let s = run moved (init cap) es in
      recv-Received s.chan (count_receivers s.posted) h (reached-IsValid moved cap es).sound

-- A receiver that waited, and is resumed when another has taken its value, returns `nullopt`
-- whether or not the channel is closed, and leaves the channel as it is.
pub turn-none :
    {T : Type 0} (moved : T → T) (s : System T) (h : ℕ) (ts : List Turn)
    → s.posted ≡ receiver h ∷ ts
    → s.chan.buffer ≡ []
    → ((step moved s turns).received ≡ s.received ++ (h, none) ∷ [])
      × ((step moved s turns).chan ≡ s.chan)
unfolding step
turn-none moved s h ts e f = ground arith
