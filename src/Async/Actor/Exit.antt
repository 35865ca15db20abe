-- ===== src/Async/Actor/Exit.antt =====
-- The actors that are gone when an actor of include/pman/async/actor.hpp has ended.
use pman.Common.{
  ℕ, zero, suc, ◌<◌, ◌≡◌, ◌⊎◌, refl, subst, sym, ap, ◌∙◌, true, false, List, Option, none, some,
  if◌then◌else◌, ◌==◌, length, All, Bool-cases, inl, inr, arith,
}
use pman.Async.Actor.{
  ExitReason, Actor, ProcessRegistry, find, erase, forget_name, notify_monitors, signal_links,
  exit_found, notify_exit,
}
use pman.Async.Actor.Links.{
  links_found, links_of, find-erase, length-erase, length-erase_found, Exits, same-Exits,
  gone-stays, All-gone, Exits-trans, signal_links-Exits, notify_monitors-links_of,
  forget_name-actors,
}

-- The registry from which an actor is taken out, and its name.
abbrev pub without : ℕ → ProcessRegistry → ProcessRegistry
without pid r = forget_name pid (record r { actors = erase pid r.actors })

pub links_of-without :
    (q pid : ℕ) (r : ProcessRegistry)
    → links_of q (without pid r) ≡ (if pid == q then none else links_of q r)
links_of-without q pid r =
    rw
      (forget_name-actors pid (record r { actors = erase pid r.actors }), find-erase q pid r.actors)
      (elim (Bool-cases (pid == q)) [ inl t ↦ rw t refl | inr t ↦ rw t refl ])

pub without-itself : (pid : ℕ) (r : ProcessRegistry) → links_of pid (without pid r) ≡ none
without-itself pid r =
    let t : (pid == pid) ≡ true = ground arith in links_of-without pid pid r ∙ (rw t refl)

pub without-other :
    (q pid : ℕ) (r : ProcessRegistry)
    → (pid == q) ≡ false
    → links_of q (without pid r) ≡ links_of q r
without-other q pid r t = links_of-without q pid r ∙ (rw t refl)

pub eq-of_test : (a b : ℕ) → (a == b) ≡ true → a ≡ b
eq-of_test a b t = ground (arith, t)

pub length-without :
    (pid : ℕ) (r : ProcessRegistry) → length (without pid r).actors ≡ length (erase pid r.actors)
length-without pid r = rw (forget_name-actors pid (record r { actors = erase pid r.actors })) refl

-- The actor was not in the registry.
absent-same :
    (pid : ℕ) (r : ProcessRegistry)
    → find pid r.actors ≡ none
    → (q : ℕ) → links_of q (without pid r) ≡ links_of q r
absent-same pid r e q = elim (Bool-cases (pid == q)) [
  | inl t ↦
      subst (λ p. links_of p (without pid r) ≡ links_of p r) (eq-of_test pid q t)
        (without-itself pid r ∙ sym (ap links_found e))
  | inr t ↦ without-other q pid r t
]

-- The actor was in the registry, `s` is what its links make of the rest, and `t` has the same actors.
module _ (pid : ℕ) (r s t : ProcessRegistry) (a : Actor) (e : find pid r.actors ≡ some a)
    (x : Exits (without pid r) s) (gone : All (λ l. links_of l s ≡ none) a.links)
    (same : (q : ℕ) → links_of q t ≡ links_of q s) (few : length t.actors ≡ length s.actors) where
  y : Exits s t
  y = same-Exits s t same (omega (arith, few))

  itself-gone : links_of pid t ≡ none
  itself-gone = gone-stays s t y pid (gone-stays (without pid r) s x pid (without-itself pid r))

  rest-Exits : Exits (without pid r) t
  rest-Exits = Exits-trans (without pid r) s t x y

  found-below : (q : ℕ) → (links_of q t ≡ none) ⊎ (links_of q t ≡ links_of q r)
  found-below q = elim (Bool-cases (pid == q)) [
    | inl u ↦ inl (subst (λ p. links_of p t ≡ none) (eq-of_test pid q u) itself-gone)
    | inr u ↦ elim (rest-Exits.below q) [
      | inl d ↦ inl d
      | inr d ↦ inr (d ∙ without-other q pid r u)
    ]
  ]

  found-closed :
      (q : ℕ) (ls : List ℕ)
      → links_of q r ≡ some ls
      → links_of q t ≡ none
      → All (λ l. links_of l t ≡ none) ls
  found-closed q ls h d = elim (Bool-cases (pid == q)) [
    | inl u ↦
        let p : links_of pid r ≡ some ls =
          subst (λ p. links_of p r ≡ some ls) (sym (eq-of_test pid q u)) h in
        let links : a.links ≡ ls = cc (p, ap links_found e) in
        subst (λ l. All (λ x. links_of x t ≡ none) l) links (All-gone s t y a.links gone)
    | inr u ↦ rest-Exits.closed q ls (without-other q pid r u ∙ h) d
  ]

  found-Exits : Exits r t × (links_of pid t ≡ none)
  found-Exits = (
    record {
      below = found-below;
      closed = found-closed;
      fewer = omega (arith, rest-Exits.fewer, length-without pid r, length-erase pid r.actors);
    },
    itself-gone,
  )

-- `notifyExit` after the look-up, when it is right for registries of less than `n` actors.
module _ (n pid : ℕ) (reason : ExitReason) (r : ProcessRegistry)
    (notified : (p : ℕ) (why : ExitReason) (q : ProcessRegistry)
      → length q.actors < n
      → Exits q (notify_exit n p why q) × (links_of p (notify_exit n p why q) ≡ none))
    (h : length r.actors < suc n) where
  exit_found-Exits :
      (o : Option Actor)
      → find pid r.actors ≡ o
      → Exits r (exit_found o pid reason (notify_exit n) (without pid r))
        × (links_of pid (exit_found o pid reason (notify_exit n) (without pid r)) ≡ none)
  unfolding exit_found
  exit_found-Exits none e = (
    same-Exits r (without pid r) (absent-same pid r e)
        (omega (arith, length-without pid r, length-erase pid r.actors)),
    without-itself pid r,
  )
  exit_found-Exits (some a) e =
      let s = signal_links (notify_exit n) a.links (without pid r) in
      let t = notify_monitors pid reason a.monitors s in
      let fewer : length (without pid r).actors < n =
        omega (arith, h, length-without pid r, length-erase_found pid r.actors a e) in
      let signalled = signal_links-Exits (notify_exit n) n notified a.links (without pid r) fewer in
      found-Exits pid r s t a e signalled.0 signalled.1
        (λ q. (notify_monitors-links_of q pid reason a.monitors s).0)
        (notify_monitors-links_of 0 pid reason a.monitors s).1

-- With fuel for one round more than there are actors.
pub notify_exit-Exits :
    (n pid : ℕ) (reason : ExitReason) (r : ProcessRegistry)
    → length r.actors < n
    → Exits r (notify_exit n pid reason r) × (links_of pid (notify_exit n pid reason r) ≡ none)
unfolding notify_exit
notify_exit-Exits zero pid reason r h = absurd (omega (arith, h))
notify_exit-Exits (suc n) pid reason r h =
    exit_found-Exits n pid reason r (notify_exit-Exits n) h (find pid r.actors) refl
