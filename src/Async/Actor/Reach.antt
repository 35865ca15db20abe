-- ===== src/Async/Actor/Reach.antt =====
-- The actors that go with an actor of include/pman/async/actor.hpp are those that a chain of links leads to.
use pman.Common.{
  ℕ, zero, suc, ◌<◌, ◌≡◌, ◌⊎◌, ◌↔◌, refl, subst, sym, ap, ◌∙◌, Bool, true, false, List, [], ◌∷◌,
  Option, none, some, ◌==◌, ◌||◌, length, All, Bool-cases, inl, inr, arith,
}
use pman.Async.Actor.{
  ExitReason, linked, Actor, ProcessRegistry, find, signal_found, signal_links, exit_found,
  notify_exit, stop,
}
use pman.Async.Actor.Links.{
  links_found, links_of, Exits, gone-stays, length-erase_found, notify_monitors-links_of,
  stop-links_of, stop-Exits, signal_found-Exits,
}
use pman.Async.Actor.Exit.{
  without, without-itself, without-other, length-without, eq-of_test, notify_exit-Exits,
}

-- The second is the first, or is linked to it by a chain of links of actors in the registry.
abbrev pub is_in : ℕ → List ℕ → Bool
is_in x [] = false
is_in x (y ∷ ys) = y == x || is_in x ys

pub data LinkedTo (r : ProcessRegistry) : ℕ → ℕ → Type 0 where
  itself : (p : ℕ) → LinkedTo r p p
  by_link :
      (p x q : ℕ) (ls : List ℕ)
      → links_of p r ≡ some ls
      → is_in x ls ≡ true
      → LinkedTo r x q
      → LinkedTo r p q

All-is_in : (P : ℕ → Type 0) (x : ℕ) (ls : List ℕ) → is_in x ls ≡ true → All P ls → P x
All-is_in P x [] h all = absurd (ground (arith, h))
All-is_in P x (l ∷ ls) h (p, all) = elim (Bool-cases (l == x)) [
  | inl t ↦ subst P (eq-of_test l x t) p
  | inr t ↦ All-is_in P x ls (ground (arith, h, t)) all
]

module _ (r s : ProcessRegistry) (x : Exits r s) where
  pub LinkedTo-gone : (p q : ℕ) → LinkedTo r p q → links_of p s ≡ none → links_of q s ≡ none
  LinkedTo-gone _ _ (itself p) d = d
  LinkedTo-gone _ _ (by_link p k q ls e m l) d =
      LinkedTo-gone k q l (All-is_in (λ x. links_of x s ≡ none) k ls m (x.closed p ls e d))

module _ (r s : ProcessRegistry)
    (below : (q : ℕ) → (links_of q s ≡ none) ⊎ (links_of q s ≡ links_of q r)) where
  LinkedTo-below : (p q : ℕ) → LinkedTo s p q → LinkedTo r p q
  LinkedTo-below _ _ (itself p) = itself p
  LinkedTo-below _ _ (by_link p k q ls e m l) = elim (below p) [
    | inl d ↦ absurd (ground (arith, d, e))
    | inr e' ↦ by_link p k q ls (sym e' ∙ e) m (LinkedTo-below k q l)
  ]

-- An actor of these leads to it.
abbrev FromOne : ProcessRegistry → List ℕ → ℕ → Type 0
FromOne r ls q = (x : ℕ) × (is_in x ls ≡ true) × LinkedTo r x q

module _ (n q : ℕ)
    (only : (pid : ℕ) (reason : ExitReason) (r : ProcessRegistry)
      → length r.actors < n
      → links_of q (notify_exit n pid reason r) ≡ none
      → (links_of q r ≡ none) ⊎ LinkedTo r pid q) where
  signal_found-only :
      (o : Option Actor) (l : ℕ) (r : ProcessRegistry)
      → length r.actors < n
      → links_of q (signal_found o l (notify_exit n) r) ≡ none
      → (links_of q r ≡ none) ⊎ LinkedTo r l q
  unfolding signal_found
  signal_found-only none l r h d = inl d
  signal_found-only (some a) l r h d =
      let x = stop-Exits l r in
      elim (only l linked (stop l r) (omega (arith, h, x.fewer)) d) [
        | inl g ↦ inl (sym (stop-links_of q l r) ∙ g)
        | inr g ↦ inr (LinkedTo-below r (stop l r) x.below l q g)
      ]

  signal_links-only :
      (ls : List ℕ) (r : ProcessRegistry)
      → length r.actors < n
      → links_of q (signal_links (notify_exit n) ls r) ≡ none
      → (links_of q r ≡ none) ⊎ FromOne r ls q
  unfolding signal_links
  signal_links-only [] r h d = inl d
  signal_links-only (l ∷ ls) r h d =
      let s = signal_found (find l r.actors) l (notify_exit n) r in
      let x =
        (signal_found-Exits (notify_exit n) n (notify_exit-Exits n) (find l r.actors) l r refl
          h).0 in
      elim (signal_links-only ls s (omega (arith, h, x.fewer)) d) [
        | inl g ↦ elim (signal_found-only (find l r.actors) l r h g) [
          | inl g' ↦ inl g'
          | inr g' ↦ inr (l, ground arith, g')
        ]
        | inr (k, m, g) ↦ inr (k, ground (arith, m), LinkedTo-below r s x.below k q g)
      ]

without-below :
    (pid : ℕ) (r : ProcessRegistry) (q : ℕ)
    → (links_of q (without pid r) ≡ none) ⊎ (links_of q (without pid r) ≡ links_of q r)
without-below pid r q = elim (Bool-cases (pid == q)) [
  | inl t ↦
      inl
        (subst (λ p. links_of p (without pid r) ≡ none) (eq-of_test pid q t) (without-itself pid r))
  | inr t ↦ inr (without-other q pid r t)
]

without-only :
    (pid q : ℕ) (r : ProcessRegistry)
    → links_of q (without pid r) ≡ none
    → (links_of q r ≡ none) ⊎ LinkedTo r pid q
without-only pid q r d = elim (Bool-cases (pid == q)) [
  | inl t ↦ inr (subst (LinkedTo r pid) (eq-of_test pid q t) (itself pid))
  | inr t ↦ inl (sym (without-other q pid r t) ∙ d)
]

module _ (n q pid : ℕ) (reason : ExitReason) (r : ProcessRegistry) (h : length r.actors < suc n)
    (only : (p : ℕ) (why : ExitReason) (s : ProcessRegistry)
      → length s.actors < n
      → links_of q (notify_exit n p why s) ≡ none
      → (links_of q s ≡ none) ⊎ LinkedTo s p q) where
  exit_found-only :
      (o : Option Actor)
      → find pid r.actors ≡ o
      → links_of q (exit_found o pid reason (notify_exit n) (without pid r)) ≡ none
      → (links_of q r ≡ none) ⊎ LinkedTo r pid q
  unfolding exit_found
  exit_found-only none e d = without-only pid q r d
  exit_found-only (some a) e d =
      let s = signal_links (notify_exit n) a.links (without pid r) in
      let fewer : length (without pid r).actors < n =
        omega (arith, h, length-without pid r, length-erase_found pid r.actors a e) in
      let gone : links_of q s ≡ none =
        sym (notify_monitors-links_of q pid reason a.monitors s).0 ∙ d in
      elim (signal_links-only n q only a.links (without pid r) fewer gone) [
        | inl g ↦ without-only pid q r g
        | inr (k, m, g) ↦ inr (
            by_link pid k q a.links (ap links_found e) m
              (LinkedTo-below r (without pid r) (without-below pid r) k q g))
      ]

notify_exit-only :
    (n q pid : ℕ) (reason : ExitReason) (r : ProcessRegistry)
    → length r.actors < n
    → links_of q (notify_exit n pid reason r) ≡ none
    → (links_of q r ≡ none) ⊎ LinkedTo r pid q
unfolding notify_exit
notify_exit-only zero q pid reason r h d = absurd (omega (arith, h))
notify_exit-only (suc n) q pid reason r h d =
    exit_found-only n q pid reason r h (notify_exit-only n q) (find pid r.actors) refl d

links_found-none : (o : Option Actor) → links_found o ≡ none → o ≡ none
links_found-none none e = refl
links_found-none (some a) e = absurd (ground (arith, e))

-- When an actor exits, exactly those actors are no longer in the registry that were not in it before
-- or that a chain of links leads to, whatever the order in which the links are gone through. One round more
-- than there are actors is enough fuel.
pub notify_exit-LinkedTo :
    (n pid : ℕ) (reason : ExitReason) (r : ProcessRegistry) (q : ℕ)
    → length r.actors < n
    → (find q (notify_exit n pid reason r).actors ≡ none)
      ↔ ((find q r.actors ≡ none) ⊎ LinkedTo r pid q)
notify_exit-LinkedTo n pid reason r q h =
    let s = notify_exit n pid reason r in
    let x = notify_exit-Exits n pid reason r h in
    (
      λ d. elim (notify_exit-only n q pid reason r h (ap links_found d)) [
        | inl g ↦ inl (links_found-none (find q r.actors) g)
        | inr l ↦ inr l
      ],
      λ c. elim c [
        | inl g ↦ links_found-none (find q s.actors) (gone-stays r s x.0 q (ap links_found g))
        | inr l ↦ links_found-none (find q s.actors) (LinkedTo-gone r s x.0 pid q l x.1)
      ],
    )
