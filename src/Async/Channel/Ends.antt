-- ===== src/Async/Channel/Ends.antt =====
-- `Sender::send` and `Receiver::recv` of include/pman/async/channel.hpp, on every branch.
use pman.Common.{
  ℕ, ◌≤◌, ◌≡◌, refl, inl, inr, Bool, true, false, List, [], ◌∷◌, length, append-nil, append_assoc,
  Option, none, some, arith, leb, leb→le, leb→ltb, Bool-cases,
}
use mathlib.Core.List.{map-append}
use pman.Async.Channel.{Channel, SendWaiter, Turn, Outcome, done, suspended, send, recv}
use pman.Async.Channel.Queue.{
  IsSound, IsSound-suc, Effect, channel, try_recv-Taken, try_send_into, count_receivers,
}

module _ {T : Type 0} where
  -- What `send v` does, where `rest` is what a move leaves of `v`.
  abbrev pub Sent :
      (c : Channel T) (ready : ℕ) (v rest : T) → Outcome Bool × Channel T × List Turn → Type 0
  Sent c ready v rest (done true, c', ts) = (c.closed ≡ false) × Effect c ready [] (v ∷ []) c' ts
  Sent c ready v rest (done false, c', ts) = (c.closed ≡ true) × (c' ≡ c) × (ts ≡ [])
  Sent c ready v rest (suspended, c', ts) =
      (c.closed ≡ false) × (c.capacity ≤ length c.buffer) × Effect c ready [] (rest ∷ []) c' ts

  module _ (moved : T → T) (cap : ℕ) (bs : List T) (sent : List ℕ) (fl n h : ℕ) (x : T) where
    send_at :
        (cl : Bool) (rs : List ℕ) (ss : List (SendWaiter T))
        → IsSound (channel cap cl bs rs ss sent fl) n
        → Sent
            (channel cap cl bs rs ss sent fl)
            n
            x
            (moved x)
            (send moved h x (channel cap cl bs rs ss sent fl))
    unfolding send count_receivers
    send_at true rs ss v = (refl, refl, refl)
    send_at false rs ss v = elim (Bool-cases (leb cap (length bs))) [
      | inl full ↦
          rw (full, leb→ltb cap (length bs) full)
            (
              refl,
              leb→le _ _ full,
              record {
                sound = ground (arith, leb→le cap (length bs) full);
                same_capacity = refl;
                same_closed = refl;
                fifo = simp (map-append, append_assoc);
              },
            )
      | inr room ↦
          rw room (refl, try_send_into cap false bs sent fl n x rs ss v refl (ground arith))
    ]

  -- What `send` does to a channel that is sound: it fails if the channel is closed; it puts the
  -- value in if there is room; else it waits, with what a move leaves of the value.
  pub send-Sent :
      (moved : T → T) (c : Channel T) (ready h : ℕ) (v : T)
      → IsSound c ready
      → Sent c ready v (moved v) (send moved h v c)
  send-Sent moved c n h x v =
      send_at moved c.capacity c.buffer c.sent c.flags n h x c.closed c.recv_waiters c.send_waiters
        v

  -- What `recv` does.
  abbrev pub Received :
      (c : Channel T) (ready : ℕ) → Outcome (Option T) × Channel T × List Turn → Type 0
  Received c ready (done (some v), c', ts) = Effect c ready (v ∷ []) [] c' ts
  Received c ready (done none, c', ts) = (c.closed ≡ true) × (c.buffer ≡ []) × (c' ≡ c) × (ts ≡ [])
  Received c ready (suspended, c', ts) =
      (c.closed ≡ false) × (c.buffer ≡ []) × Effect c ready [] [] c' ts

  module _ (cap : ℕ) (sent : List ℕ) (fl n h : ℕ) where
    recv_at :
        (cl : Bool) (bs : List T) (rs : List ℕ) (ss : List (SendWaiter T))
        → IsSound (channel cap cl bs rs ss sent fl) n
        → Received (channel cap cl bs rs ss sent fl) n (recv h (channel cap cl bs rs ss sent fl))
    unfolding recv count_receivers
    recv_at true [] rs ss v = (refl, refl, refl, refl)
    recv_at false [] rs ss v = (
      refl,
      refl,
      record {
        sound = ground arith;
        same_capacity = refl;
        same_closed = refl;
        fifo = simp append-nil;
      },
    )
    recv_at cl (b ∷ bs) rs ss v = try_recv-Taken _ n (IsSound-suc _ n v)

  pub recv-Received : (c : Channel T) (ready h : ℕ) → IsSound c ready → Received c ready (recv h c)
  recv-Received c n h v =
      recv_at c.capacity c.sent c.flags n h c.closed c.buffer c.recv_waiters c.send_waiters v
