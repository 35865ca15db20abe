-- ===== src/Async/Channel.antt =====
-- include/pman/async/channel.hpp: the bounded channel, its awaiters and the two ends. Each function
-- runs under `mutex_`, and returns the handles that it gives to `resumeHandle`, in that order.
pub mod System
pub mod Queue
pub mod Ends
pub mod Delivery
pub mod Laws
mod Examples
use pman.Common.{
  ℕ, ◌+◌, Bool, true, false, List, [], ◌∷◌, ◌++◌, map, Option, none, some, if◌then◌else◌, ltb, leb,
  ◌==◌, ◌||◌, ◌&&◌, not, length,
}

-- A suspended `send`: its handle, its value, and the number of its `sent_flag`.
pub record SendWaiter (T : Type 0) : Type 0 where
  pub handle : ℕ
  pub value : T
  pub flag : ℕ

-- `ChannelImpl<T>`. `sent` lists the flags that are set, `flags` counts those handed out.
pub record Channel (T : Type 0) : Type 0 where
  pub capacity : ℕ
  pub closed : Bool
  pub buffer : List T
  pub recv_waiters : List ℕ
  pub send_waiters : List (SendWaiter T)
  pub sent : List ℕ
  pub flags : ℕ

-- A handle that is resumed, with the awaiter that it resumes in.
pub data Turn : Type 0 where
  receiver : ℕ → Turn
  sender : ℕ → ℕ → Turn

-- A coroutine goes on with a result, or is suspended.
pub data Outcome (A : Type 0) : Type 0 where
  done : A → Outcome A
  suspended : Outcome A

abbrev pub is_empty {ℓ} : {A : Type ℓ} → List A → Bool
is_empty [] = true
is_empty (x ∷ xs) = false

abbrev pub is_some {ℓ} : {A : Type ℓ} → Option A → Bool
is_some none = false
is_some (some a) = true

-- Whether a flag is set.
pub is_set : ℕ → List ℕ → Bool
is_set i [] = false
is_set i (j ∷ js) = i == j || is_set i js

module _ {T : Type 0} where
  -- `ChannelImpl(size_t capacity)`
  abbrev pub new : ℕ → Channel T
  new n = record {
    capacity = n;
    closed = false;
    buffer = [];
    recv_waiters = [];
    send_waiters = [];
    sent = [];
    flags = 0;
  }

  wake_receiver_with : List ℕ → Channel T → Channel T × List Turn
  wake_receiver_with [] c = (c, [])
  wake_receiver_with (h ∷ hs) c = (record c { recv_waiters = hs }, receiver h ∷ [])

  -- `wakeNextReceiverLocked`
  pub wake_next_receiver : Channel T → Channel T × List Turn
  unfolding wake_receiver_with
  wake_next_receiver c = wake_receiver_with c.recv_waiters c

  wake_sender_with : List (SendWaiter T) → Channel T → Channel T × List Turn
  wake_sender_with [] c = (c, [])
  wake_sender_with (w ∷ ws) c =
      if ltb (length c.buffer) c.capacity
      then (let (c', turns) = wake_next_receiver (record c {
        send_waiters = ws;
        buffer = c.buffer ++ w.value ∷ [];
        sent = w.flag ∷ c.sent;
      }) in
          (c', turns ++ sender w.handle w.flag ∷ []))
      else (c, [])

  -- `wakeNextSenderLocked`
  pub wake_next_sender : Channel T → Channel T × List Turn
  unfolding wake_sender_with wake_next_receiver
  wake_next_sender c = wake_sender_with c.send_waiters c

  -- `trySend`
  pub try_send : T → Channel T → Bool × Channel T × List Turn
  unfolding wake_next_receiver
  try_send v c =
      if c.closed || leb c.capacity (length c.buffer)
      then (false, c, [])
      else (let (c', turns) = wake_next_receiver (record c { buffer = c.buffer ++ v ∷ [] }) in
          (true, c', turns))

  -- The front of the buffer is taken, and a waiting sender is let in.
  take_front : List T → Channel T → Option T × Channel T × List Turn
  take_front [] c = (none, c, [])
  take_front (v ∷ vs) c =
      let (c', turns) = wake_next_sender (record c { buffer = vs }) in (some v, c', turns)

  -- `tryRecv`
  pub try_recv : Channel T → Option T × Channel T × List Turn
  unfolding take_front wake_next_sender
  try_recv c = take_front c.buffer c

  -- `close`
  pub close : Channel T → Channel T × List Turn
  close c = if c.closed then (c, []) else (
    record c { closed = true; recv_waiters = []; send_waiters = [] },
    map receiver c.recv_waiters ++ map (λ w. sender w.handle w.flag) c.send_waiters,
  )

  -- `SendAwaiter::await_ready`, `await_suspend` and `await_resume`
  pub send_await_ready : Channel T → Bool
  send_await_ready c = c.closed || ltb (length c.buffer) c.capacity

  pub send_await_suspend : ℕ → T → ℕ → Channel T → Channel T
  send_await_suspend h v flag c = record c {
    send_waiters = c.send_waiters ++ record { handle = h; value = v; flag = flag } ∷ [];
  }

  pub send_await_resume : ℕ → Channel T → Bool
  unfolding is_set
  send_await_resume flag c = not c.closed && is_set flag c.sent

  -- `RecvAwaiter::await_ready`, `await_suspend` and `await_resume`
  pub recv_await_ready : Channel T → Bool
  recv_await_ready c = c.closed || not (is_empty c.buffer)

  pub recv_await_suspend : ℕ → Channel T → Channel T
  recv_await_suspend h c = record c { recv_waiters = c.recv_waiters ++ h ∷ [] }

  pub recv_await_resume : Channel T → Option T × Channel T × List Turn
  unfolding try_recv
  recv_await_resume c = try_recv c

  -- The wait of `Sender::send`: a new awaiter, with a new flag, that holds the value `v`.
  send_wait : ℕ → T → Channel T → Outcome Bool × Channel T × List Turn
  send_wait h v c =
      let flag = c.flags in
      let c' = record c { flags = c.flags + 1 } in
      if send_await_ready c'
      then (done (send_await_resume flag c'), c', [])
      else (suspended, send_await_suspend h v flag c', [])

  -- `Sender::send`. `std::move(value)` empties the variable in the call of `trySend`, also where
  -- that returns false: the awaiter is given what `moved` leaves behind.
  pub send : (T → T) → ℕ → T → Channel T → Outcome Bool × Channel T × List Turn
  unfolding try_send send_wait send_await_ready send_await_resume send_await_suspend
  send moved h v c =
      if c.closed
      then (done false, c, [])
      else (let (ok, c', turns) = try_send v c in
          if ok then (done true, c', turns) else send_wait h (moved v) c')

  -- The wait of `Receiver::recv`.
  recv_wait : ℕ → Channel T → Outcome (Option T) × Channel T × List Turn
  recv_wait h c =
      if recv_await_ready c
      then (let (v, c', turns) = recv_await_resume c in (done v, c', turns))
      else (suspended, recv_await_suspend h c, [])

  -- `Receiver::recv`
  pub recv : ℕ → Channel T → Outcome (Option T) × Channel T × List Turn
  unfolding try_recv recv_wait recv_await_ready recv_await_resume recv_await_suspend
  recv h c =
      let (v, c', turns) = try_recv c in
      if is_some v
      then (done v, c', turns)
      else (if c'.closed then (done none, c', turns) else recv_wait h c')
