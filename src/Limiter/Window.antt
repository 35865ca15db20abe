-- ===== src/Limiter/Window.antt =====
-- `SlidingWindowRateLimiter` of src/rate_limiter.cpp. The cutoff `now - windowDuration` is compared
-- with a timestamp by adding the window to the timestamp.
pub mod Limit
pub mod Remaining
pub mod Calls
mod Examples
use pman.Common.{
  ℕ, ◌+◌, ◌-◌, Bool, true, false, List, [], ◌∷◌, ◌++◌, Option, none, some, if◌then◌else◌, ltb, leb,
  ◌==◌, length, suc, ◌≤◌,
}

pub record Window : Type 0 where
  pub max_requests : ℕ
  pub duration : ℕ
  pub timestamps : List ℕ

-- The constructor; `none` is the exception `std::invalid_argument`.
pub new : ℕ → ℕ → Option Window
new max duration =
    if max == 0
    then none
    else (if duration == 0
        then none
        else some (record { max_requests = max; duration = duration; timestamps = [] }))

-- The loop of `cleanup`.
pub drop_expired : ℕ → ℕ → List ℕ → List ℕ
drop_expired duration now [] = []
drop_expired duration now (t ∷ ts) =
    if ltb (t + duration) now then drop_expired duration now ts else t ∷ ts

-- `cleanup`
pub cleanup : ℕ → Window → Window
unfolding drop_expired
cleanup now w = record w { timestamps = drop_expired w.duration now w.timestamps }

-- `tryAcquire` reads the clock in `cleanup`, and again for the new timestamp.
pub try_acquire : ℕ → ℕ → Window → Bool × Window
unfolding cleanup
try_acquire now stamp w =
    let w' = cleanup now w in
    if ltb (length w'.timestamps) w'.max_requests
    then (true, record w' { timestamps = w'.timestamps ++ stamp ∷ [] })
    else (false, w')

-- How long `acquire` waits, and `tryAcquireFor`, which waits no longer than to its deadline.
pub wait_for_oldest : ℕ → ℕ → List ℕ → ℕ
wait_for_oldest duration now [] = 0
wait_for_oldest duration now (t ∷ ts) = if ltb now (t + duration) then t + duration - now else 0

pub wait_time : ℕ → Window → ℕ
unfolding wait_for_oldest
wait_time now w = wait_for_oldest w.duration now w.timestamps

pub wait_before : ℕ → ℕ → Window → ℕ
unfolding wait_time
wait_before deadline now w =
    if ltb (deadline - now) (wait_time now w) then deadline - now else wait_time now w

-- The loop of `remainingRequests`.
pub count_valid : ℕ → ℕ → List ℕ → ℕ
count_valid duration now [] = 0
count_valid duration now (t ∷ ts) =
    if leb now (t + duration)
    then suc (count_valid duration now ts)
    else count_valid duration now ts

-- `remainingRequests`
pub remaining_requests : ℕ → Window → ℕ
unfolding count_valid
remaining_requests now w =
    let valid = count_valid w.duration now w.timestamps in
    if ltb valid w.max_requests then w.max_requests - valid else 0

-- The loop of `timeUntilReset`.
pub first_reset : ℕ → ℕ → List ℕ → ℕ
first_reset duration now [] = 0
first_reset duration now (t ∷ ts) =
    if leb now (t + duration) then t + duration - now else first_reset duration now ts

-- `timeUntilReset`
pub time_until_reset : ℕ → Window → ℕ
unfolding first_reset
time_until_reset now w = first_reset w.duration now w.timestamps

-- A limiter with the grants that it has made, oldest first; a history is a list of calls of
-- `tryAcquire`, each with its two readings of the clock.
pub record System : Type 0 where
  pub limiter : Window
  pub granted : List ℕ

abbrev pub start : ℕ → ℕ → System
start max duration = record {
  limiter = record { max_requests = max; duration = duration; timestamps = [] };
  granted = [];
}

pub step : System → ℕ × ℕ → System
unfolding try_acquire
step s (now, stamp) =
    let (ok, w) = try_acquire now stamp s.limiter in
    record { limiter = w; granted = (if ok then s.granted ++ stamp ∷ [] else s.granted) }

pub run : System → List (ℕ × ℕ) → System
run s [] = s
run s (c ∷ cs) = run (step s c) cs

-- The clock does not go back over the history, which starts at time `t`.
abbrev pub Steady : ℕ → List (ℕ × ℕ) → Type 0
Steady t [] = Unit {0}
Steady t ((now, stamp) ∷ cs) = (t ≤ now) × (now ≤ stamp) × Steady stamp cs

-- The clock after the history.
abbrev pub clock : ℕ → List (ℕ × ℕ) → ℕ
clock t [] = t
clock t ((now, stamp) ∷ cs) = clock stamp cs

-- One turn of the loop of `acquire` or `tryAcquireFor`: the attempts of other threads before it, which had the
-- mutex meanwhile, its two readings of the clock, the reading that follows a refusal, and whether a signal
-- interrupts the wait. A wait that is not interrupted times out, since nothing notifies `cv_`.
pub record Turn : Type 0 where
  pub others : List (ℕ × ℕ)
  pub now : ℕ
  pub stamp : ℕ
  pub later : ℕ
  pub interrupted : Bool

-- How a call ends: with a grant, with false, by the `std::system_error` that `FutexCondVar::wait_for` throws
-- after a wait of the given length has timed out, or not within the turns given.
pub data Ended : Type 0 where
  acquired : Ended
  refused : Ended
  timed_out : ℕ → Ended
  waiting : Ended

pub acquire : List Turn → System → Ended × System
unfolding run step wait_time
acquire [] s = (waiting, s)
acquire (t ∷ ts) s =
    let before = run s t.others in
    let after = step before (t.now, t.stamp) in
    let rest = acquire ts after in
    if (try_acquire t.now t.stamp before.limiter).0
    then (acquired, after)
    else (if t.interrupted then rest else (timed_out (wait_time t.later after.limiter), after))

pub try_acquire_for : ℕ → List Turn → System → Ended × System
unfolding run step wait_before
try_acquire_for deadline [] s = (waiting, s)
try_acquire_for deadline (t ∷ ts) s =
    let before = run s t.others in
    let after = step before (t.now, t.stamp) in
    let rest = try_acquire_for deadline ts after in
    if (try_acquire t.now t.stamp before.limiter).0
    then (acquired, after)
    else if leb deadline t.later
    then (refused, after)
    else if t.interrupted
    then rest
    else (timed_out (wait_before deadline t.later after.limiter), after)

-- Any of the three calls; the deadline of `tryAcquireFor` is `now() + timeout`.
pub data Call : Type 0 where
  tries : ℕ → ℕ → Call
  acquires : List Turn → Call
  tries_for : ℕ → List Turn → Call

pub call : Call → System → System
unfolding step acquire try_acquire_for
call (tries now stamp) s = step s (now, stamp)
call (acquires ts) s = (acquire ts s).1
call (tries_for deadline ts) s = (try_acquire_for deadline ts s).1

pub calls : List Call → System → System
unfolding call
calls [] s = s
calls (c ∷ cs) s = calls cs (call c s)
