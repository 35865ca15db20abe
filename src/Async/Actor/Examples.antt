-- ===== src/Async/Actor/Examples.antt =====
-- Actors of include/pman/async/actor.hpp at work.
use pman.Common.{ℕ, ◌≡◌, ◌⊎◌, ◌↔◌, refl, false, List, [], ◌∷◌, Option, none, some, arith}
use pman.Async.Actor.{
  exception, linked, normal, down, user, Message, Actor, ProcessRegistry, new_registry, find, erase,
  update, lookup, remove, assign, insert_in, spawn, register_found, register_name, unregister_found,
  unregister_name, whereis, deliver, send_found, send, send_to, send_named, link_to, link_found,
  link, monitored_by, monitor_found, monitor, stopped, stop, forget_found, forget_name,
  notify_monitors, signal_found, signal_links, exit_found, notify_exit, handle_crash,
}
use pman.Async.Actor.Reach.{LinkedTo, notify_exit-LinkedTo}

methods : Unit {0}
unfolding find erase update lookup remove assign insert_in spawn register_found register_name
    unregister_found unregister_name whereis deliver send_found send send_to send_named link_to
    link_found link monitored_by monitor_found monitor stopped stop forget_found forget_name
    notify_monitors signal_found signal_links exit_found notify_exit handle_crash
methods = tt

-- Four actors: 1 is linked to 2, 2 to 3, and 4 watches 3.
four : ProcessRegistry
unfolding spawn link monitor
four =
    let r = (spawn (spawn (spawn (spawn new_registry).1).1).1).1 in
    (monitor 4 3 (link 2 3 (link 1 2 r))).1

pids : List Actor → List ℕ
pids [] = []
pids (a ∷ xs) = a.pid ∷ pids xs

only_four_left : pids (handle_crash 5 1 exception four).actors ≡ 4 ∷ []
unfolding methods four pids
only_four_left = refl

mailbox_of : Option Actor → List Message
mailbox_of none = []
mailbox_of (some a) = a.mailbox

told_of_three :
    mailbox_of (find 4 (handle_crash 5 1 exception four).actors)
    ≡ record { from = 0; payload = down (record { pid = 3; monitor = 4; reason = linked }) } ∷ []
unfolding methods four mailbox_of
told_of_three = refl

-- A pid with two names: the first stays after its exit.
stale_name :
    whereis 70 (handle_crash 5 4 normal (register_name 71 4 (register_name 70 4 four).1).1) ≡ some 4
unfolding methods four
stale_name = refl

unknown_name : (send_named 70 1 (user 5) four).0 ≡ false
unfolding methods four
unknown_name = refl

unregistered : whereis 70 (unregister_name 70 (register_name 70 4 four).1) ≡ none
unfolding methods four
unregistered = refl

notify_exit-LinkedTo_example :
    (find 3 (notify_exit 5 1 exception four).actors ≡ none)
    ↔ ((find 3 four.actors ≡ none) ⊎ LinkedTo four 1 3)
unfolding methods four
notify_exit-LinkedTo_example = notify_exit-LinkedTo 5 1 exception four 3 (omega arith)
