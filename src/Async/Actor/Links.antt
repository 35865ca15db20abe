-- ===== src/Async/Actor/Links.antt =====
-- What the end of an actor of include/pman/async/actor.hpp does to the actors it is linked to.
use pman.Common.{
  ℕ, ◌≤◌, ◌<◌, ◌≡◌, ◌⊎◌, refl, ap, ◌∙◌, List, [], ◌∷◌, Option, none, some, if◌then◌else◌, ◌==◌,
  length, All, Bool-cases, inl, inr, arith,
}
use pman.Async.Actor.{
  ExitReason, linked, DownMessage, down, Message, Actor, ProcessRegistry, find, erase, update,
  deliver, send_found, send, stopped, stop, forget_found, forget_name, notify_monitors,
  signal_found, signal_links, lookup,
}

-- The links of an actor, if it is in the registry.
abbrev pub links_found : Option Actor → Option (List ℕ)
links_found none = none
links_found (some a) = some a.links

abbrev pub links_of : ℕ → ProcessRegistry → Option (List ℕ)
links_of q r = links_found (find q r.actors)

pub find-erase :
    (q pid : ℕ) (xs : List Actor) → find q (erase pid xs) ≡ (if pid == q then none else find q xs)
unfolding find erase
find-erase q pid [] = ground arith
find-erase q pid (a ∷ xs) = let ih = find-erase q pid xs in ground (arith, ih)

pub length-erase : (pid : ℕ) (xs : List Actor) → length (erase pid xs) ≤ length xs
unfolding erase
length-erase pid [] = omega arith
length-erase pid (a ∷ xs) = let ih = length-erase pid xs in ground (arith, ih)

pub length-erase_found :
    (pid : ℕ) (xs : List Actor) (a : Actor)
    → find pid xs ≡ some a
    → length (erase pid xs) < length xs
unfolding find erase
length-erase_found pid [] a e = cc
length-erase_found pid (b ∷ xs) a e = elim (Bool-cases (b.pid == pid)) [
  | inl t ↦ rw t (omega (arith, length-erase pid xs))
  | inr t ↦ rw t (omega (arith, length-erase_found pid xs a (ground (arith, t, e))))
]

length-update :
    (pid : ℕ) (f : Actor → Actor) (xs : List Actor) → length (update pid f xs) ≡ length xs
unfolding update
length-update pid f [] = refl
length-update pid f (a ∷ xs) = omega (arith, length-update pid f xs)

-- A change that leaves the pid and the links.
links-update :
    (q pid : ℕ) (f : Actor → Actor) (xs : List Actor)
    → ((a : Actor) → (f a).pid ≡ a.pid)
    → ((a : Actor) → (f a).links ≡ a.links)
    → links_found (find q (update pid f xs)) ≡ links_found (find q xs)
unfolding find update
links-update q pid f [] same_pid same_links = refl
links-update q pid f (a ∷ xs) same_pid same_links =
    let ih = links-update q pid f xs same_pid same_links in
    elim (Bool-cases (a.pid == pid)) [
      | inl t ↦
          rw (t, same_pid a)
            (elim (Bool-cases (a.pid == q)) [
              | inl u ↦ rw u (ap some (same_links a))
              | inr u ↦ rw u ih
            ])
      | inr t ↦ rw t (elim (Bool-cases (a.pid == q)) [ inl u ↦ rw u refl | inr u ↦ rw u ih ])
    ]

-- From `r` to `s` actors may have gone, and no one else's links have changed; with an actor all those
-- have gone that it was linked to.
pub record Exits (r s : ProcessRegistry) : Type 0 where
  pub below : (q : ℕ) → (links_of q s ≡ none) ⊎ (links_of q s ≡ links_of q r)
  pub closed :
      (q : ℕ) (ls : List ℕ)
      → links_of q r ≡ some ls
      → links_of q s ≡ none
      → All (λ x. links_of x s ≡ none) ls
  pub fewer : length s.actors ≤ length r.actors

pub same-Exits :
    (r s : ProcessRegistry)
    → ((q : ℕ) → links_of q s ≡ links_of q r)
    → length s.actors ≤ length r.actors
    → Exits r s
same-Exits r s same l = record {
  below = λ q. inr (same q);
  closed = λ q ls e d. absurd (ground (arith, e, d, same q));
  fewer = l;
}

module _ (s t : ProcessRegistry) (x : Exits s t) where
  pub gone-stays : (q : ℕ) → links_of q s ≡ none → links_of q t ≡ none
  gone-stays q d = elim (x.below q) [ inl e ↦ e | inr e ↦ e ∙ d ]

  pub All-gone :
      (ls : List ℕ) → All (λ q. links_of q s ≡ none) ls → All (λ q. links_of q t ≡ none) ls
  All-gone [] all = tt
  All-gone (l ∷ ls) (d, all) = (gone-stays l d, All-gone ls all)

module _ (r s t : ProcessRegistry) (x : Exits r s) (y : Exits s t) where
  below_trans : (q : ℕ) → (links_of q t ≡ none) ⊎ (links_of q t ≡ links_of q r)
  below_trans q = elim (y.below q) [
    | inl d ↦ inl d
    | inr e ↦ elim (x.below q) [ inl d ↦ inl (e ∙ d) | inr e' ↦ inr (e ∙ e') ]
  ]

  closed_trans :
      (q : ℕ) (ls : List ℕ)
      → links_of q r ≡ some ls
      → links_of q t ≡ none
      → All (λ x. links_of x t ≡ none) ls
  closed_trans q ls e d = elim (x.below q) [
    | inl d' ↦ All-gone s t y ls (x.closed q ls e d')
    | inr e' ↦ y.closed q ls (e' ∙ e) d
  ]

  pub Exits-trans : Exits r t
  Exits-trans = record {
    below = below_trans;
    closed = closed_trans;
    fewer = omega (arith, x.fewer, y.fewer);
  }

module _ (m : Message) (b : Actor) where
  deliver-pid : (deliver m b).pid ≡ b.pid
  unfolding deliver
  deliver-pid = elim (Bool-cases b.is_stopped) [ inl t ↦ rw t refl | inr t ↦ rw t refl ]

  deliver-links : (deliver m b).links ≡ b.links
  unfolding deliver
  deliver-links = elim (Bool-cases b.is_stopped) [ inl t ↦ rw t refl | inr t ↦ rw t refl ]

module _ (q : ℕ) where
  send_found-links_of :
      (o : Option Actor) (to : ℕ) (msg : Message) (r : ProcessRegistry)
      → (links_of q ((send_found o to msg r).1) ≡ links_of q r)
        × (length (send_found o to msg r).1.actors ≡ length r.actors)
  unfolding send_found
  send_found-links_of none to msg r = (refl, refl)
  send_found-links_of (some a) to msg r = (
    links-update q to (deliver msg) r.actors (deliver-pid msg) (deliver-links msg),
    length-update to (deliver msg) r.actors,
  )

  pub notify_monitors-links_of :
      (pid : ℕ) (reason : ExitReason) (ms : List ℕ) (r : ProcessRegistry)
      → (links_of q (notify_monitors pid reason ms r) ≡ links_of q r)
        × (length (notify_monitors pid reason ms r).actors ≡ length r.actors)
  unfolding notify_monitors send
  notify_monitors-links_of pid reason [] r = (refl, refl)
  notify_monitors-links_of pid reason (m ∷ ms) r =
      let d : DownMessage = record { pid = pid; monitor = m; reason = reason } in
      let ih = notify_monitors-links_of pid reason ms (send m 0 (down d) r).1 in
      let one = send_found-links_of (find m r.actors) m (record { from = 0; payload = down d }) r in
      (ih.0 ∙ one.0, ih.1 ∙ one.1)

pub forget_name-actors : (pid : ℕ) (r : ProcessRegistry) → (forget_name pid r).actors ≡ r.actors
unfolding forget_name
forget_name-actors pid r = forget_found-actors (lookup pid r.reverse_names)
  where
    forget_found-actors : (o : Option ℕ) → (forget_found o pid r).actors ≡ r.actors
    forget_found-actors none = refl
    forget_found-actors (some name) = refl

pub stop-links_of : (q pid : ℕ) (r : ProcessRegistry) → links_of q (stop pid r) ≡ links_of q r
unfolding stop stopped
stop-links_of q pid r = links-update q pid stopped r.actors (λ a. refl) (λ a. refl)

pub stop-Exits : (pid : ℕ) (r : ProcessRegistry) → Exits r (stop pid r)
unfolding stop stopped
stop-Exits pid r =
    same-Exits r (stop pid r) (λ q. stop-links_of q pid r)
      (omega (arith, length-update pid stopped r.actors))

-- The actors that an exit signal reaches, when `notify` is right for registries of less than `n` actors.
module _ (notify : ℕ → ExitReason → ProcessRegistry → ProcessRegistry) (n : ℕ)
    (notified : (pid : ℕ) (reason : ExitReason) (r : ProcessRegistry)
      → length r.actors < n
      → Exits r (notify pid reason r) × (links_of pid (notify pid reason r) ≡ none)) where
  pub signal_found-Exits :
      (o : Option Actor) (l : ℕ) (r : ProcessRegistry)
      → find l r.actors ≡ o
      → length r.actors < n
      → Exits r (signal_found o l notify r) × (links_of l (signal_found o l notify r) ≡ none)
  unfolding signal_found
  signal_found-Exits none l r e h = (same-Exits r r (λ q. refl) (omega arith), ap links_found e)
  signal_found-Exits (some a) l r e h =
      let x = stop-Exits l r in
      let y = notified l linked (stop l r) (omega (arith, h, x.fewer)) in
      (Exits-trans r (stop l r) (notify l linked (stop l r)) x y.0, y.1)

  pub signal_links-Exits :
      (ls : List ℕ) (r : ProcessRegistry)
      → length r.actors < n
      → Exits r (signal_links notify ls r)
        × All (λ l. links_of l (signal_links notify ls r) ≡ none) ls
  unfolding signal_links
  signal_links-Exits [] r h = (same-Exits r r (λ q. refl) (omega arith), tt)
  signal_links-Exits (l ∷ ls) r h =
      let s = signal_found (find l r.actors) l notify r in
      let t = signal_links notify ls s in
      let x = signal_found-Exits (find l r.actors) l r refl h in
      let y = signal_links-Exits ls s (omega (arith, h, x.0.fewer)) in
      (Exits-trans r s t x.0 y.0, (gone-stays s t y.0 l x.1, y.1))
