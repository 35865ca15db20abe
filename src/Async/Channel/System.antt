-- ===== src/Async/Channel/System.antt =====
-- A channel of include/pman/async/channel.hpp among the coroutines of one event loop, where
-- `resumeHandle` posts the handle. The lists beside the channel are the history.
use pman.Common.{ℕ, Bool, List, [], ◌∷◌, ◌++◌, map, Option, none, some, if◌then◌else◌}
use pman.Async.Channel.{
  Channel, Turn, receiver, sender, Outcome, done, suspended, new, send, recv, try_send, try_recv,
  close, send_await_resume, recv_await_resume,
}

-- `offered` are the values that entered the buffer or a waiting sender, `delivered` those that a
-- receive returned, `dropped` those of the senders that waited when the channel was closed;
-- `answers` and `received` are the results of `send` and `recv`, with the coroutine.
pub record System (T : Type 0) : Type 0 where
  pub chan : Channel T
  pub posted : List Turn
  pub offered : List T
  pub delivered : List T
  pub dropped : List T
  pub answers : List (ℕ × Bool)
  pub received : List (ℕ × Option T)

-- The four operations, `close`, and a turn of the loop.
pub data Event (T : Type 0) : Type 0 where
  sends : ℕ → T → Event T
  tries : T → Event T
  recvs : ℕ → Event T
  try_recvs : Event T
  closes : Event T
  turns : Event T

module _ {T : Type 0} where
  abbrev pub init : ℕ → System T
  init n = record {
    chan = new n;
    posted = [];
    offered = [];
    delivered = [];
    dropped = [];
    answers = [];
    received = [];
  }

  abbrev pub to_list : Option T → List T
  to_list none = []
  to_list (some v) = v ∷ []

  unfoldable pub send_after : ℕ → T → T → System T → Outcome Bool × Channel T × List Turn → System T
  send_after h v rest s (done ok, c, ts) = record s {
    chan = c;
    posted = s.posted ++ ts;
    offered = s.offered ++ (if ok then v ∷ [] else []);
    answers = s.answers ++ (h, ok) ∷ [];
  }
  send_after h v rest s (suspended, c, ts) = record s {
    chan = c;
    posted = s.posted ++ ts;
    offered = s.offered ++ rest ∷ [];
  }

  unfoldable pub try_after : T → System T → Bool × Channel T × List Turn → System T
  try_after v s (ok, c, ts) = record s {
    chan = c;
    posted = s.posted ++ ts;
    offered = s.offered ++ (if ok then v ∷ [] else []);
  }

  unfoldable pub recv_after : ℕ → System T → Outcome (Option T) × Channel T × List Turn → System T
  recv_after h s (done v, c, ts) = record s {
    chan = c;
    posted = s.posted ++ ts;
    delivered = s.delivered ++ to_list v;
    received = s.received ++ (h, v) ∷ [];
  }
  recv_after h s (suspended, c, ts) = record s { chan = c; posted = s.posted ++ ts }

  unfoldable pub try_recv_after : System T → Option T × Channel T × List Turn → System T
  try_recv_after s (v, c, ts) = record s {
    chan = c;
    posted = s.posted ++ ts;
    delivered = s.delivered ++ to_list v;
  }

  unfoldable pub close_after : System T → Channel T × List Turn → System T
  close_after s (c, ts) = record s {
    chan = c;
    posted = s.posted ++ ts;
    dropped = (if s.chan.closed then s.dropped else map (λ w. w.value) s.chan.send_waiters);
  }

  -- The oldest posted handle goes on after its `co_await`.
  unfoldable pub turn : List Turn → System T → System T
  turn [] s = s
  turn (receiver h ∷ ts) s =
      recv_after h (record s { posted = ts })
        (let (v, c, ws) = recv_await_resume s.chan in (done v, c, ws))
  turn (sender h flag ∷ ts) s = record s {
    posted = ts;
    answers = s.answers ++ (h, send_await_resume flag s.chan) ∷ [];
  }

  unfoldable pub step : (T → T) → System T → Event T → System T
  unfolding send_after try_after recv_after try_recv_after close_after turn send recv try_send
      try_recv close send_await_resume recv_await_resume
  step moved s (sends h v) = send_after h v (moved v) s (send moved h v s.chan)
  step moved s (tries v) = try_after v s (try_send v s.chan)
  step moved s (recvs h) = recv_after h s (recv h s.chan)
  step moved s try_recvs = try_recv_after s (try_recv s.chan)
  step moved s closes = close_after s (close s.chan)
  step moved s turns = turn s.posted s

  unfoldable pub run : (T → T) → System T → List (Event T) → System T
  run moved s [] = s
  run moved s (e ∷ es) = run moved (step moved s e) es
