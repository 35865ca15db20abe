-- ===== src/Async/Channel/Queue.antt =====
-- The channel of include/pman/async/channel.hpp as a queue: the buffer, and behind it the values of
-- the senders that wait.
use pman.Common.{
  ℕ, suc, ◌+◌, ◌≤◌, ◌<◌, ◌≡◌, refl, ◌⊎◌, inl, inr, Bool, true, false, List, [], ◌∷◌, ◌++◌, map,
  length, length-append, append-nil, append_assoc, Option, none, some, arith, leb, leb→le, lt→ltb,
  Bool-cases,
}
use pman.Async.Channel.{
  Channel, SendWaiter, Turn, receiver, sender, wake_next_receiver, take_front, try_send, try_recv,
}

unfoldable pub count_receivers : List Turn → ℕ
count_receivers [] = 0
count_receivers (receiver h ∷ ts) = suc (count_receivers ts)
count_receivers (sender h f ∷ ts) = count_receivers ts

pub count_receivers-append :
    (ts us : List Turn) → count_receivers (ts ++ us) ≡ count_receivers ts + count_receivers us
unfolding count_receivers
count_receivers-append [] us = omega arith
count_receivers-append (receiver h ∷ ts) us = omega (arith, count_receivers-append ts us)
count_receivers-append (sender h f ∷ ts) us = count_receivers-append ts us

module _ {T : Type 0} where
  abbrev pub values : List (SendWaiter T) → List T
  values = map λ w. w.value

  abbrev pub contents : Channel T → List T
  contents c = c.buffer ++ values c.send_waiters

  -- `ready` is the number of receivers that are posted.
  pub record IsSound (c : Channel T) (ready : ℕ) : Type 0 where
    pub bounded : length c.buffer ≤ c.capacity
    pub full : (c.send_waiters ≡ []) ⊎ (c.capacity ≤ length c.buffer)
    pub awake : (c.recv_waiters ≡ []) ⊎ (length c.buffer ≤ ready)
    pub no_sender : (c.closed ≡ false) ⊎ (c.send_waiters ≡ [])
    pub no_receiver : (c.closed ≡ false) ⊎ (c.recv_waiters ≡ [])

  -- What an operation on `c` that takes `outs` out and puts `ins` in leaves behind.
  pub record Effect (c : Channel T) (ready : ℕ) (outs ins : List T) (c' : Channel T)
      (ts : List Turn) : Type 0 where
    pub sound : IsSound c' (ready + count_receivers ts)
    pub same_capacity : c'.capacity ≡ c.capacity
    pub same_closed : c'.closed ≡ c.closed
    pub fifo : contents c ++ ins ≡ outs ++ contents c'

  abbrev pub channel : ℕ → Bool → List T → List ℕ → List (SendWaiter T) → List ℕ → ℕ → Channel T
  channel cap cl bs rs ss sent fl = record {
    capacity = cap;
    closed = cl;
    buffer = bs;
    recv_waiters = rs;
    send_waiters = ss;
    sent = sent;
    flags = fl;
  }

  abbrev pub Taken : (c : Channel T) (ready : ℕ) → Option T × Channel T × List Turn → Type 0
  Taken c ready (none, c', ts) = (c.buffer ≡ []) × (c' ≡ c) × (ts ≡ [])
  Taken c ready (some v, c', ts) = Effect c ready (v ∷ []) [] c' ts

  -- Taking from the front with a sender at hand: its value follows the rest of the buffer.
  front-fifo :
      (v : T) (vs : List T) (w : SendWaiter T) (ws : List (SendWaiter T))
      → ((v ∷ vs) ++ values (w ∷ ws)) ++ [] ≡ v ∷ ((vs ++ w.value ∷ []) ++ values ws)
  front-fifo v vs w ws = simp (append-nil, append_assoc)

  module _ (cap : ℕ) (cl : Bool) (sent : List ℕ) (fl n : ℕ) where
    take_front-Taken :
        (bs : List T) (rs : List ℕ) (ss : List (SendWaiter T))
        → IsSound (channel cap cl bs rs ss sent fl) (suc n)
        → Taken
            (channel cap cl bs rs ss sent fl)
            n
            (take_front bs (channel cap cl bs rs ss sent fl))
    unfolding try_recv count_receivers
    take_front-Taken [] rs ss v = (refl, refl, refl)
    take_front-Taken (b ∷ bs) rs [] v = record {
      sound = ground arith;
      same_capacity = refl;
      same_closed = refl;
      fifo = simp append-nil;
    }
    take_front-Taken (b ∷ bs) [] (w ∷ ws) v = rw (lt→ltb (length bs) cap v.bounded) (record {
      sound = ground (arith, length-append bs (w.value ∷ []));
      same_capacity = refl;
      same_closed = refl;
      fifo = front-fifo b bs w ws;
    })
    take_front-Taken (b ∷ bs) (h ∷ hs) (w ∷ ws) v = rw (lt→ltb (length bs) cap v.bounded) (record {
      sound = ground (arith, length-append bs (w.value ∷ []));
      same_capacity = refl;
      same_closed = refl;
      fifo = front-fifo b bs w ws;
    })

  -- The posted receiver that takes a value no longer counts.
  pub try_recv-Taken :
      (c : Channel T) (ready : ℕ) → IsSound c (suc ready) → Taken c ready (try_recv c)
  unfolding try_recv
  try_recv-Taken c n =
      take_front-Taken c.capacity c.closed c.sent c.flags n c.buffer c.recv_waiters c.send_waiters

  abbrev pub Put : (c : Channel T) (ready : ℕ) (v : T) → Bool × Channel T × List Turn → Type 0
  Put c ready v (true, c', ts) = (c.closed ≡ false) × Effect c ready [] (v ∷ []) c' ts
  Put c ready v (false, c', ts) =
      ((c.closed ≡ true) ⊎ (c.capacity ≤ length c.buffer)) × (c' ≡ c) × (ts ≡ [])

  module _ (cap : ℕ) (cl : Bool) (bs : List T) (sent : List ℕ) (fl n : ℕ) (x : T) where
    pub try_send_into :
        (rs : List ℕ) (ss : List (SendWaiter T))
        → IsSound (channel cap cl bs rs ss sent fl) n
        → cl ≡ false
        → length bs < cap
        → Effect
            (channel cap cl bs rs ss sent fl)
            n
            []
            (x ∷ [])
            (wake_next_receiver (channel cap cl (bs ++ x ∷ []) rs ss sent fl)).0
            (wake_next_receiver (channel cap cl (bs ++ x ∷ []) rs ss sent fl)).1
    unfolding try_send count_receivers
    try_send_into [] [] v e lt = record {
      sound = ground (arith, length-append bs (x ∷ []));
      same_capacity = refl;
      same_closed = refl;
      fifo = simp append-nil;
    }
    try_send_into (r ∷ rs) [] v e lt = record {
      sound = ground (arith, length-append bs (x ∷ []));
      same_capacity = refl;
      same_closed = refl;
      fifo = simp append-nil;
    }
    try_send_into rs (w ∷ ws) v e lt = absurd (ground arith)

  module _ (cap : ℕ) (bs : List T) (sent : List ℕ) (fl n : ℕ) (x : T) where
    put :
        (cl : Bool) (rs : List ℕ) (ss : List (SendWaiter T))
        → IsSound (channel cap cl bs rs ss sent fl) n
        → Put (channel cap cl bs rs ss sent fl) n x (try_send x (channel cap cl bs rs ss sent fl))
    unfolding try_send
    put true rs ss v = (inl refl, refl, refl)
    put false rs ss v = elim (Bool-cases (leb cap (length bs))) [
      | inl full ↦ rw full (inr (leb→le _ _ full), refl, refl)
      | inr room ↦
          rw room (refl, try_send_into cap false bs sent fl n x rs ss v refl (ground arith))
    ]

  pub try_send-Put :
      (c : Channel T) (ready : ℕ) (v : T) → IsSound c ready → Put c ready v (try_send v c)
  try_send-Put c n x v =
      put c.capacity c.buffer c.sent c.flags n x c.closed c.recv_waiters c.send_waiters v

  pub IsSound-suc : (c : Channel T) (ready : ℕ) → IsSound c ready → IsSound c (suc ready)
  IsSound-suc c n v = ground arith
