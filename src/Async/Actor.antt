-- ===== src/Async/Actor.antt =====
-- include/pman/async/actor.hpp: actors with pids, names, links and monitors. A name and the payload of
-- a user's message are numbers; a mailbox is the messages that were put into its channel. A set of
-- pids is a list, in the order in which the code goes through it.
pub mod Links
pub mod Exit
pub mod Reach
mod Examples
use pman.Common.{
  ℕ, zero, suc, ◌+◌, Bool, true, false, not, List, [], ◌∷◌, ◌++◌, Option, none, some, if◌then◌else◌,
  ◌==◌,
}

-- `ExitReason`
pub data ExitReason : Type 0 where
  normal : ExitReason
  killed : ExitReason
  exception : ExitReason
  linked : ExitReason

-- `DownMessage`, and the payload of a `Message`.
pub record DownMessage : Type 0 where
  pub pid : ℕ
  pub monitor : ℕ
  pub reason : ExitReason

pub data Payload : Type 0 where
  user : ℕ → Payload
  down : DownMessage → Payload

pub record Message : Type 0 where
  pub from : ℕ
  pub payload : Payload

-- `Actor`
pub record Actor : Type 0 where
  pub pid : ℕ
  pub is_stopped : Bool
  pub links : List ℕ
  pub monitors : List ℕ
  pub mailbox : List Message

-- `ProcessRegistry`; the maps are association lists.
pub record ProcessRegistry : Type 0 where
  pub next_pid : ℕ
  pub actors : List Actor
  pub names : List (ℕ × ℕ)
  pub reverse_names : List (ℕ × ℕ)

abbrev pub new_registry : ProcessRegistry
new_registry = record { next_pid = 1; actors = []; names = []; reverse_names = [] }

-- `std::unordered_map`: `find`, `erase` and `operator[]`, of the actors and of the names.
pub find : ℕ → List Actor → Option Actor
find pid [] = none
find pid (a ∷ xs) = if a.pid == pid then some a else find pid xs

pub erase : ℕ → List Actor → List Actor
erase pid [] = []
erase pid (a ∷ xs) = let rest = erase pid xs in if a.pid == pid then rest else a ∷ rest

-- The actor with a pid changes.
pub update : ℕ → (Actor → Actor) → List Actor → List Actor
update pid f [] = []
update pid f (a ∷ xs) = (if a.pid == pid then f a else a) ∷ update pid f xs

pub lookup : ℕ → List (ℕ × ℕ) → Option ℕ
lookup k [] = none
lookup k ((k', v) ∷ kvs) = if k' == k then some v else lookup k kvs

pub remove : ℕ → List (ℕ × ℕ) → List (ℕ × ℕ)
remove k [] = []
remove k ((k', v) ∷ kvs) = let rest = remove k kvs in if k' == k then rest else (k', v) ∷ rest

pub assign : ℕ → ℕ → List (ℕ × ℕ) → List (ℕ × ℕ)
unfolding remove
assign k v kvs = (k, v) ∷ remove k kvs

-- `std::unordered_set::insert`
pub insert_in : ℕ → List ℕ → List ℕ
insert_in x [] = x ∷ []
insert_in x (y ∷ ys) = let rest = insert_in x ys in if y == x then y ∷ ys else y ∷ rest

-- `spawn`, but for the run of the new actor.
pub spawn : ProcessRegistry → ℕ × ProcessRegistry
spawn r =
    let a : Actor = record {
      pid = r.next_pid;
      is_stopped = false;
      links = [];
      monitors = [];
      mailbox = [];
    } in
    (r.next_pid, record r { next_pid = r.next_pid + 1; actors = a ∷ r.actors })

-- `registerName`, `unregisterName` and `whereis`
pub register_found : Option ℕ → ℕ → ℕ → ProcessRegistry → Bool × ProcessRegistry
unfolding assign
register_found (some other) name pid r = (false, r)
register_found none name pid r = (
  true,
  record r { names = assign name pid r.names; reverse_names = assign pid name r.reverse_names },
)

pub register_name : ℕ → ℕ → ProcessRegistry → Bool × ProcessRegistry
unfolding lookup register_found
register_name name pid r = register_found (lookup name r.names) name pid r

pub unregister_found : Option ℕ → ℕ → ProcessRegistry → ProcessRegistry
unfolding remove
unregister_found none name r = r
unregister_found (some pid) name r = record r {
  names = remove name r.names;
  reverse_names = remove pid r.reverse_names;
}

pub unregister_name : ℕ → ProcessRegistry → ProcessRegistry
unfolding lookup unregister_found
unregister_name name r = unregister_found (lookup name r.names) name r

pub whereis : ℕ → ProcessRegistry → Option ℕ
unfolding lookup
whereis name r = lookup name r.names

-- `Actor::sendMessage` and `send` to a pid and to a name.
pub deliver : Message → Actor → Actor
deliver msg a = if a.is_stopped then a else record a { mailbox = a.mailbox ++ (msg ∷ []) }

pub send_found : Option Actor → ℕ → Message → ProcessRegistry → Bool × ProcessRegistry
unfolding deliver update
send_found none to msg r = (false, r)
send_found (some a) to msg r =
    (not a.is_stopped, record r { actors = update to (deliver msg) r.actors })

pub send : ℕ → ℕ → Payload → ProcessRegistry → Bool × ProcessRegistry
unfolding find send_found
send to from payload r =
    send_found (find to r.actors) to (record { from = from; payload = payload }) r

pub send_to : Option ℕ → ℕ → Payload → ProcessRegistry → Bool × ProcessRegistry
unfolding send
send_to none from payload r = (false, r)
send_to (some pid) from payload r = send pid from payload r

pub send_named : ℕ → ℕ → Payload → ProcessRegistry → Bool × ProcessRegistry
unfolding whereis send_to
send_named name from payload r = send_to (whereis name r) from payload r

-- `link` and `monitor`
pub link_to : ℕ → Actor → Actor
unfolding insert_in
link_to other a = record a { links = insert_in other a.links }

pub link_found : Option Actor → Option Actor → ℕ → ℕ → ProcessRegistry → ProcessRegistry
unfolding update link_to
link_found none b pid1 pid2 r = r
link_found (some a) none pid1 pid2 r = r
link_found (some a) (some b) pid1 pid2 r = record r {
  actors = update pid2 (link_to pid1) (update pid1 (link_to pid2) r.actors);
}

pub link : ℕ → ℕ → ProcessRegistry → ProcessRegistry
unfolding find link_found
link pid1 pid2 r = link_found (find pid1 r.actors) (find pid2 r.actors) pid1 pid2 r

pub monitored_by : ℕ → Actor → Actor
unfolding insert_in
monitored_by watcher a = record a { monitors = insert_in watcher a.monitors }

pub monitor_found : Option Actor → ℕ → ℕ → ProcessRegistry → ℕ × ProcessRegistry
unfolding update monitored_by
monitor_found none watcher watched r = (0, r)
monitor_found (some a) watcher watched r =
    (watcher, record r { actors = update watched (monitored_by watcher) r.actors })

pub monitor : ℕ → ℕ → ProcessRegistry → ℕ × ProcessRegistry
unfolding find monitor_found
monitor watcher watched r = monitor_found (find watched r.actors) watcher watched r

-- `Actor::stop`
pub stopped : Actor → Actor
stopped a = record a { is_stopped = true }

pub stop : ℕ → ProcessRegistry → ProcessRegistry
unfolding update stopped
stop pid r = record r { actors = update pid stopped r.actors }

-- `notifyExit`. The handler of an exit signal is the default one, and runs at once.
pub forget_found : Option ℕ → ℕ → ProcessRegistry → ProcessRegistry
unfolding remove
forget_found none pid r = r
forget_found (some name) pid r = record r {
  names = remove name r.names;
  reverse_names = remove pid r.reverse_names;
}

pub forget_name : ℕ → ProcessRegistry → ProcessRegistry
unfolding lookup forget_found
forget_name pid r = forget_found (lookup pid r.reverse_names) pid r

pub notify_monitors : ℕ → ExitReason → List ℕ → ProcessRegistry → ProcessRegistry
unfolding send
notify_monitors pid reason [] r = r
notify_monitors pid reason (m ∷ ms) r =
    let d : DownMessage = record { pid = pid; monitor = m; reason = reason } in
    notify_monitors pid reason ms (send m 0 (down d) r).1

pub signal_found :
    Option Actor
    → ℕ
    → (ℕ → ExitReason → ProcessRegistry → ProcessRegistry)
    → ProcessRegistry
    → ProcessRegistry
unfolding stop
signal_found none pid notify r = r
signal_found (some a) pid notify r = notify pid linked (stop pid r)

pub signal_links :
    (ℕ → ExitReason → ProcessRegistry → ProcessRegistry)
    → List ℕ
    → ProcessRegistry
    → ProcessRegistry
unfolding signal_found find
signal_links notify [] r = r
signal_links notify (l ∷ ls) r = signal_links notify ls (signal_found (find l r.actors) l notify r)

pub exit_found :
    Option Actor
    → ℕ
    → ExitReason
    → (ℕ → ExitReason → ProcessRegistry → ProcessRegistry)
    → ProcessRegistry
    → ProcessRegistry
unfolding signal_links notify_monitors
exit_found none pid reason notify r = r
exit_found (some a) pid reason notify r =
    notify_monitors pid reason a.monitors (signal_links notify a.links r)

pub notify_exit : ℕ → ℕ → ExitReason → ProcessRegistry → ProcessRegistry
unfolding exit_found find erase forget_name
notify_exit zero pid reason r = r
notify_exit (suc n) pid reason r =
    exit_found (find pid r.actors) pid reason (notify_exit n)
      (forget_name pid (record r { actors = erase pid r.actors }))

-- `handleCrash`
pub handle_crash : ℕ → ℕ → ExitReason → ProcessRegistry → ProcessRegistry
unfolding notify_exit stop
handle_crash fuel pid reason r = notify_exit fuel pid reason (stop pid r)
