-- ===== src/Async/Channel/Laws.antt =====
-- The channel of include/pman/async/channel.hpp over every history of one event loop.
use pman.Common.{
  ℕ, suc, ◌≡◌, refl, sym, ap, subst, ◌∙◌, ◌⊎◌, inl, inr, Bool, true, false, List, [], ◌∷◌, ◌++◌,
  append-nil, append_assoc, Option, none, some, arith,
}
use pman.Async.Channel.{
  Channel, Turn, receiver, sender, Outcome, done, suspended, try_recv, recv_await_resume, close,
}
use pman.Async.Channel.Queue.{
  contents, values, IsSound, IsSound-suc, Effect, Taken, try_recv-Taken, Put, try_send-Put,
  count_receivers, count_receivers-append,
}
use pman.Async.Channel.Ends.{Sent, send-Sent, Received, recv-Received}
use pman.Async.Channel.System.{
  System, Event, sends, tries, recvs, try_recvs, closes, turns, init, step, run, send_after,
  try_after, recv_after, try_recv_after, close_after, turn,
}

module _ {ℓ} {A : Type ℓ} where
  -- The history `o`, delivered `d`, held `k` and dropped `z`, over an operation.
  queue_moves :
      (o d k k' z outs ins : List A)
      → o ≡ d ++ (k ++ z)
      → k ++ ins ≡ outs ++ k'
      → (ins ≡ []) ⊎ (z ≡ [])
      → o ++ ins ≡ (d ++ outs) ++ (k' ++ z)
  queue_moves o d k k' z outs ins f e (inl n) =
      let held : k ≡ outs ++ k' = sym (append-nil k) ∙ (ap (◌++◌ k) (sym n) ∙ e) in
      rw (f, n, held) (simp (append-nil, append_assoc))
  queue_moves o d k k' z outs ins f e (inr n) =
      rw (f, n) (simp (append-nil, append_assoc) (ap (◌++◌ d) e))

module _ {T : Type 0} where
  -- The history of the values.
  pub record Tally (cap : ℕ) (c : Channel T) (offered delivered dropped : List T) : Type 0 where
    pub capped : c.capacity ≡ cap
    pub fifo : offered ≡ delivered ++ (contents c ++ dropped)
    pub quiet : (c.closed ≡ true) ⊎ (dropped ≡ [])

  -- The channel, the posted handles and the history fit together.
  pub record Fits (cap : ℕ) (c : Channel T) (posted : List Turn)
      (offered delivered dropped : List T) : Type 0 where
    pub sound : IsSound c (count_receivers posted)
    pub tally : Tally cap c offered delivered dropped

  abbrev pub IsValid : ℕ → System T → Type 0
  IsValid cap s = Fits cap s.chan s.posted s.offered s.delivered s.dropped

  module _ (cap : ℕ) (c : Channel T) (posted : List Turn) (offered delivered dropped : List T) where
    Effect-Fits :
        (outs ins : List T) (c' : Channel T) (ts : List Turn)
        → Tally cap c offered delivered dropped
        → Effect c (count_receivers posted) outs ins c' ts
        → (ins ≡ []) ⊎ (c.closed ≡ false)
        → Fits cap c' (posted ++ ts) (offered ++ ins) (delivered ++ outs) dropped
    Effect-Fits outs ins c' ts v e o = record {
      sound = rw (count_receivers-append posted ts) e.sound;
      tally = record {
        capped = e.same_capacity ∙ v.capped;
        fifo =
            queue_moves _ delivered (contents c) (contents c') dropped outs ins v.fifo e.fifo
              (ground arith);
        quiet = ground arith;
      };
    }

  module _ (cap : ℕ) (s : System T) (v : Tally cap s.chan s.offered s.delivered s.dropped) where
    -- An operation that only puts in, or only takes out.
    put-Fits :
        (ins : List T) (c' : Channel T) (ts : List Turn)
        → s.chan.closed ≡ false
        → Effect s.chan (count_receivers s.posted) [] ins c' ts
        → Fits cap c' (s.posted ++ ts) (s.offered ++ ins) s.delivered s.dropped
    put-Fits ins c' ts o e =
        subst (λ d. Fits cap c' (s.posted ++ ts) (s.offered ++ ins) d s.dropped)
          (append-nil s.delivered)
          (Effect-Fits cap s.chan s.posted s.offered s.delivered s.dropped [] ins c' ts v e (inr o))

    take-Fits :
        (outs : List T) (c' : Channel T) (ts : List Turn)
        → Effect s.chan (count_receivers s.posted) outs [] c' ts
        → Fits cap c' (s.posted ++ ts) s.offered (s.delivered ++ outs) s.dropped
    take-Fits outs c' ts e =
        subst (λ o. Fits cap c' (s.posted ++ ts) o (s.delivered ++ outs) s.dropped)
          (append-nil s.offered)
          (Effect-Fits cap s.chan s.posted s.offered s.delivered s.dropped outs [] c' ts v e
            (inl refl))

    same-Fits :
        (c' : Channel T) (ts : List Turn)
        → IsSound s.chan (count_receivers s.posted)
        → c' ≡ s.chan
        → ts ≡ []
        → Fits cap c' (s.posted ++ ts) s.offered s.delivered s.dropped
    same-Fits c' ts o e n = rw (e, n, append-nil s.posted) (record { sound = o; tally = v })

    send_after-IsValid :
        (h : ℕ) (x rest : T) (r : Outcome Bool × Channel T × List Turn)
        → IsSound s.chan (count_receivers s.posted)
        → Sent s.chan (count_receivers s.posted) x rest r
        → IsValid cap (send_after h x rest s r)
    unfolding send_after
    send_after-IsValid h x rest (done true, c', ts) o p = put-Fits (x ∷ []) c' ts p.0 p.1
    send_after-IsValid h x rest (done false, c', ts) o p =
        rw (append-nil s.offered) (same-Fits c' ts o p.1 p.2)
    send_after-IsValid h x rest (suspended, c', ts) o p = put-Fits (rest ∷ []) c' ts p.0 p.2

    try_after-IsValid :
        (x : T) (r : Bool × Channel T × List Turn)
        → IsSound s.chan (count_receivers s.posted)
        → Put s.chan (count_receivers s.posted) x r
        → IsValid cap (try_after x s r)
    unfolding try_after
    try_after-IsValid x (true, c', ts) o p = put-Fits (x ∷ []) c' ts p.0 p.1
    try_after-IsValid x (false, c', ts) o p = rw (append-nil s.offered) (same-Fits c' ts o p.1 p.2)

    recv_after-IsValid :
        (h : ℕ) (r : Outcome (Option T) × Channel T × List Turn)
        → IsSound s.chan (count_receivers s.posted)
        → Received s.chan (count_receivers s.posted) r
        → IsValid cap (recv_after h s r)
    unfolding recv_after
    recv_after-IsValid h (done (some x), c', ts) o p = take-Fits (x ∷ []) c' ts p
    recv_after-IsValid h (done none, c', ts) o p =
        rw (append-nil s.delivered) (same-Fits c' ts o p.2 p.3)
    recv_after-IsValid h (suspended, c', ts) o p =
        subst (λ d. Fits cap c' (s.posted ++ ts) s.offered d s.dropped) (append-nil s.delivered)
          (take-Fits [] c' ts p.2)

    try_recv_after-IsValid :
        (r : Option T × Channel T × List Turn)
        → IsSound s.chan (count_receivers s.posted)
        → Taken s.chan (count_receivers s.posted) r
        → IsValid cap (try_recv_after s r)
    unfolding try_recv_after
    try_recv_after-IsValid (some x, c', ts) o p = take-Fits (x ∷ []) c' ts p
    try_recv_after-IsValid (none, c', ts) o p =
        rw (append-nil s.delivered) (same-Fits c' ts o p.1 p.2)

    close-IsValid :
        (closed : Bool)
        → s.chan.closed ≡ closed
        → IsSound s.chan (count_receivers s.posted)
        → IsValid cap (close_after s (close s.chan))
    unfolding close close_after
    close-IsValid true e o = simp (e, append-nil) (record { sound = o; tally = v })
    close-IsValid false e o = simp e (record {
      sound = record {
        bounded = o.bounded;
        full = inl refl;
        awake = inl refl;
        no_sender = inr refl;
        no_receiver = inr refl;
      };
      tally = record { capped = v.capped; fifo = shut; quiet = inl refl };
    })
      where
        open_dropped : s.dropped ≡ []
        open_dropped = ground arith

        shut : s.offered ≡ s.delivered ++ ((s.chan.buffer ++ []) ++ values s.chan.send_waiters)
        shut = v.fifo ∙ rw open_dropped (simp append-nil)

    resume-IsValid :
        (h : ℕ) (r : Option T × Channel T × List Turn)
        → IsSound s.chan (suc (count_receivers s.posted))
        → Taken s.chan (count_receivers s.posted) r
        → IsValid cap (recv_after h s (done r.0, r.1, r.2))
    unfolding recv_after
    resume-IsValid h (some x, c', ts) o p = take-Fits (x ∷ []) c' ts p
    resume-IsValid h (none, c', ts) o p =
        rw (append-nil s.delivered) (same-Fits c' ts (ground arith) p.1 p.2)

  turn-IsValid :
      (cap : ℕ) (s : System T) (ts : List Turn)
      → s.posted ≡ ts
      → IsValid cap s
      → IsValid cap (turn ts s)
  unfolding turn recv_await_resume count_receivers
  turn-IsValid cap s [] e v = v
  turn-IsValid cap s (receiver h ∷ ts) e v =
      let o : IsSound s.chan (suc (count_receivers ts)) =
        subst (λ p. IsSound s.chan (count_receivers p)) e v.sound in
      resume-IsValid cap (record s { posted = ts }) v.tally h (try_recv s.chan) o
        (try_recv-Taken s.chan (count_receivers ts) o)
  turn-IsValid cap s (sender h f ∷ ts) e v =
      let o : IsSound s.chan (count_receivers ts) =
        subst (λ p. IsSound s.chan (count_receivers p)) e v.sound in
      record { sound = o; tally = v.tally }

  pub step-IsValid :
      (moved : T → T) (cap : ℕ) (s : System T) (e : Event T)
      → IsValid cap s
      → IsValid cap (step moved s e)
  unfolding step
  step-IsValid moved cap s (sends h x) v =
      send_after-IsValid cap s v.tally h x (moved x) _ v.sound
        (send-Sent moved s.chan _ h x v.sound)
  step-IsValid moved cap s (tries x) v =
      try_after-IsValid cap s v.tally x _ v.sound (try_send-Put s.chan _ x v.sound)
  step-IsValid moved cap s (recvs h) v =
      recv_after-IsValid cap s v.tally h _ v.sound (recv-Received s.chan _ h v.sound)
  step-IsValid moved cap s try_recvs v =
      try_recv_after-IsValid cap s v.tally _ v.sound
        (try_recv-Taken s.chan _ (IsSound-suc s.chan _ v.sound))
  step-IsValid moved cap s closes v = close-IsValid cap s v.tally s.chan.closed refl v.sound
  step-IsValid moved cap s turns v = turn-IsValid cap s s.posted refl v

  run-IsValid :
      (moved : T → T) (cap : ℕ) (s : System T) (es : List (Event T))
      → IsValid cap s
      → IsValid cap (run moved s es)
  unfolding run
  run-IsValid moved cap s [] v = v
  run-IsValid moved cap s (e ∷ es) v =
      run-IsValid moved cap (step moved s e) es (step-IsValid moved cap s e v)

  pub reached-IsValid :
      (moved : T → T) (cap : ℕ) (es : List (Event T)) → IsValid cap (run moved (init cap) es)
  unfolding count_receivers
  reached-IsValid moved cap es = run-IsValid moved cap (init cap) es (record {
    sound = record {
      bounded = omega arith;
      full = inl refl;
      awake = inl refl;
      no_sender = inl refl;
      no_receiver = inl refl;
    };
    tally = record { capped = refl; fifo = refl; quiet = inr refl };
  })
