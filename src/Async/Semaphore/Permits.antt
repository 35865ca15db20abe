-- ===== src/Async/Semaphore/Permits.antt =====
-- What the semaphore of include/pman/async/semaphore.hpp promises over every history of one event
-- loop in which a coroutine releases only what it has acquired.
use pman.Common.{
  ℕ, zero, suc, ◌+◌, ◌<◌, ◌≡◌, refl, sym, ap, ◌∙◌, ◌≢◌, List, [], ◌∷◌, ◌++◌, length, ◌⊎◌, inl, inr,
  ℕ_discrete, length-append, append_assoc, arith, true,
}
use pman.Async.Semaphore.{
  System, Event, acquires, tries, releases, turns, size_mod, init, step, run, turn, deliver,
  release_with, release_after,
}

record IsValid (n : ℕ) (s : System) : Type 0 where
  capped : s.sem.capacity ≡ n
  balance : s.sem.count + s.permits + length s.posted ≡ n
  quiet : s.sem.count ≢ 0 → s.sem.waiters ≡ []
  fifo : s.suspended ≡ s.resumed ++ (s.posted ++ s.sem.waiters)

init-IsValid : (n : ℕ) → IsValid n (init n)
init-IsValid n = record { capped = refl; balance = omega arith; quiet = λ e. refl; fifo = refl }

module _ (n : ℕ) (small : n < size_mod) (s : System) (v : IsValid n s) where
  open v use {capped, balance, quiet, fifo}

  suspended-snoc :
      (i : ℕ) → s.suspended ++ i ∷ [] ≡ s.resumed ++ (s.posted ++ (s.sem.waiters ++ i ∷ []))
  suspended-snoc i = rw fifo (simp append_assoc)

  acquires-IsValid : (i : ℕ) → IsValid n (step s (acquires i))
  unfolding step
  acquires-IsValid i = ground (arith, suspended-snoc i)

  tries-IsValid : IsValid n (step s tries)
  unfolding step
  tries-IsValid = ground arith

  release_with-IsValid :
      (p : ℕ) (ws : List ℕ)
      → s.permits ≡ suc p
      → s.sem.waiters ≡ ws
      → IsValid n (deliver (record s { permits = p }) (release_with true ws s.sem))
  unfolding step
  release_with-IsValid p [] m e = ground arith
  release_with-IsValid p (w ∷ ws) m e = record {
    capped = capped;
    balance = omega (arith, length-append s.posted (w ∷ []));
    quiet = λ u. cc (quiet u);
    fifo = fifo ∙ rw e (ap (◌++◌ s.resumed) (sym (append_assoc s.posted (w ∷ []) ws)));
  }

  releases-IsValid : (p : ℕ) → s.permits ≡ p → IsValid n (release_after p s)
  unfolding step
  releases-IsValid zero m = v
  releases-IsValid (suc p) m = release_with-IsValid p s.sem.waiters m refl

  turn-IsValid : (posted : List ℕ) → s.posted ≡ posted → IsValid n (turn posted s)
  unfolding step
  turn-IsValid [] e = v
  turn-IsValid (h ∷ hs) e = record {
    capped = capped;
    balance = omega (arith, ap length e);
    quiet = quiet;
    fifo = fifo ∙ rw e (sym (append_assoc s.resumed (h ∷ []) (hs ++ s.sem.waiters)));
  }

step-IsValid :
    (n : ℕ) → n < size_mod → (s : System) (e : Event) → IsValid n s → IsValid n (step s e)
unfolding step
step-IsValid n small s (acquires i) v = acquires-IsValid n small s v i
step-IsValid n small s tries v = tries-IsValid n small s v
step-IsValid n small s releases v = releases-IsValid n small s v s.permits refl
step-IsValid n small s turns v = turn-IsValid n small s v s.posted refl

run-IsValid :
    (n : ℕ) → n < size_mod → (s : System) (es : List Event) → IsValid n s → IsValid n (run s es)
unfolding run
run-IsValid n small s [] v = v
run-IsValid n small s (e ∷ es) v = run-IsValid n small (step s e) es (step-IsValid n small s e v)

reached-IsValid : (n : ℕ) → n < size_mod → (es : List Event) → IsValid n (run (init n) es)
reached-IsValid n small es = run-IsValid n small (init n) es (init-IsValid n)

-- A semaphore made with n permits, n a size_t: after any history the permits that are available,
-- those that coroutines own and those on their way to a posted waiter add up to the capacity n, so
-- never more than n coroutines own one and `count_` does not wrap.
pub permits_conserved :
    (n : ℕ) (es : List Event)
    → n < size_mod
    → let s = run (init n) es in
      (s.sem.count + s.permits + length s.posted ≡ s.sem.capacity) × (s.sem.capacity ≡ n)
permits_conserved n es small =
    let v = reached-IsValid n small es in (v.balance ∙ sym v.capped, v.capped)

-- A semaphore made with n permits, n a size_t: after any history a coroutine waits only while no
-- permit is available, and the suspended coroutines, in the order of suspension, are those
-- resumed, then those posted, then those that wait.
pub waiters-fifo :
    (n : ℕ) (es : List Event)
    → n < size_mod
    → let s = run (init n) es in
      ((s.sem.count ≡ 0) ⊎ (s.sem.waiters ≡ []))
      × (s.suspended ≡ s.resumed ++ (s.posted ++ s.sem.waiters))
waiters-fifo n es small =
    let v = reached-IsValid n small es in (no_waste (run (init n) es) v, v.fifo)
  where
    no_waste : (s : System) → IsValid n s → (s.sem.count ≡ 0) ⊎ (s.sem.waiters ≡ [])
    no_waste s v = elim (ℕ_discrete s.sem.count 0) [ yes e ↦ inl e | no e ↦ inr (v.quiet e) ]
