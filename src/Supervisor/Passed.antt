-- ===== src/Supervisor/Passed.antt =====
-- What src/process_supervisor.cpp does to the other processes when a child exits or is started.
use pman.Common.{
  ℕ, ◌≡◌, ◌≢◌, refl, sym, ap, ◌∙◌, Bool, true, false, List, [], ◌∷◌, Option, none, some, Bool-cases,
  inl, inr, ◌==◌, ◌&&◌, ==_iff, All, if◌then◌else◌, arith,
}
use pman.Supervisor.Process.{
  Platform, ProcessState, Supervisor, find, change, should_restart, name_of, erase,
}
use pman.Supervisor.Calls.{do_start, unplan, link}
use pman.Supervisor.Exits.{
  record_exit, plan_restart, clean, child_exited, exit_found, is_due, restart_due, link_due,
  restart_one,
}

-- A process of the name is not going to be started: its restart is not pending, and no pid is its.
abbrev pub Unplanned : ℕ → ProcessState → Type 0
Unplanned name s = (s.name == name && s.pending_restart) ≡ false

abbrev pub Unlinked : ℕ → List (ℕ × ℕ) → Type 0
Unlinked name es = (pid : ℕ) → name_of pid es ≢ some name

pub name_of-erase :
    (p q : ℕ) (es : List (ℕ × ℕ)) → name_of q (erase p es) ≡ (if q == p then none else name_of q es)
unfolding name_of erase
name_of-erase p q [] = ground arith
name_of-erase p q (e ∷ es) = elim (Bool-cases (e.0 == p)) [
  | inl t ↦ rw t (name_of-erase p q es ∙ ground (arith, t))
  | inr t ↦ rw t (ground (arith, t, name_of-erase p q es))
]

name_of-link :
    (p q m : ℕ) (es : List (ℕ × ℕ))
    → name_of q (link (some p) m es) ≡ (if p == q then some m else name_of q es)
unfolding name_of link
name_of-link p q m es = ground (arith, name_of-erase p q es)

pub no_name {ℓ} : {A : Type ℓ} (n : A) → some n ≢ none
no_name n h = ground (arith, h)

pub other_name : (n m : ℕ) → (m == n) ≡ false → some m ≢ some n
other_name n m d h = ground (arith, d, h)

apart : (n m k : ℕ) → (k == m) ≡ true → (m == n) ≡ false → (k == n) ≡ false
apart n m k t d = ground (arith, t, d)

find-change :
    (n m : ℕ) (f : ProcessState → ProcessState) (ss : List ProcessState)
    → ((s : ProcessState) → (f s).name ≡ s.name)
    → (m == n) ≡ false
    → find n (change m f ss) ≡ find n ss
unfolding find change
find-change n m f [] keeps d = refl
find-change n m f (s ∷ ss) keeps d = elim (Bool-cases (s.name == m)) [
  | inl t ↦ rw t (simp (keeps s, apart n m s.name t d) (find-change n m f ss keeps d))
  | inr t ↦ rw t (ap (λ r. if s.name == n then some s else r) (find-change n m f ss keeps d))
]

change-Unplanned :
    (n m : ℕ) (f : ProcessState → ProcessState) (ss : List ProcessState)
    → ((s : ProcessState) → (f s).name ≡ s.name)
    → (m == n) ≡ false
    → All (Unplanned n) ss
    → All (Unplanned n) (change m f ss)
unfolding change
change-Unplanned n m f [] keeps d h = h
change-Unplanned n m f (s ∷ ss) keeps d h = elim (Bool-cases (s.name == m)) [
  | inl t ↦
      rw t (other (f s) (keeps s) (apart n m s.name t d), change-Unplanned n m f ss keeps d h.1)
  | inr t ↦ rw t (h.0, change-Unplanned n m f ss keeps d h.1)
]
  where
    other : (s' : ProcessState) → s'.name ≡ s.name → (s.name == n) ≡ false → Unplanned n s'
    other s' e d' = ground (arith, e, d')

unplan-name : (s : ProcessState) → (unplan s).name ≡ s.name
unfolding unplan
unplan-name s = refl

do_start-name :
    (now : ℕ) (launched : Option ℕ) (s : ProcessState) → (do_start now launched s).name ≡ s.name
unfolding do_start
do_start-name now none s = refl
do_start-name now (some pid) s = refl

child_exited-name :
    (p : Platform) (b : Bool) (now exit_status : ℕ) (s : ProcessState)
    → (child_exited p b now exit_status s).name ≡ s.name
unfolding child_exited record_exit clean plan_restart
child_exited-name p false now exit_status s = refl
child_exited-name p true now exit_status s =
    elim (Bool-cases (should_restart p exit_status (clean now (record_exit now exit_status s)))) [
      | inl t ↦ rw t refl
      | inr t ↦ rw t refl
    ]

-- What a name is left with: its state, no restart in view and no pid.
abbrev pub PassedBy : ℕ → List ProcessState → List ProcessState × List (ℕ × ℕ) → Type 0
PassedBy n ss r = (find n r.0 ≡ find n ss) × All (Unplanned n) r.0 × Unlinked n r.1

PassedBy-other :
    (n : ℕ) (s s' : ProcessState) (ss : List ProcessState) (r : List ProcessState × List (ℕ × ℕ))
    → s'.name ≡ s.name
    → (s.name == n) ≡ false
    → PassedBy n ss r
    → PassedBy n (s ∷ ss) (s' ∷ r.0, r.1)
unfolding find
PassedBy-other n s s' ss r e d h = (rw (e, d) h.0, (ground (arith, e, d), h.1), h.2)

PassedBy-same :
    (n : ℕ) (s : ProcessState) (ss : List ProcessState) (r : List ProcessState × List (ℕ × ℕ))
    → Unplanned n s
    → PassedBy n ss r
    → PassedBy n (s ∷ ss) (s ∷ r.0, r.1)
unfolding find
PassedBy-same n s ss r k h = (ap (λ o. if s.name == n then some s else o) h.0, (k, h.1), h.2)

due-apart :
    (n now : ℕ) (s : ProcessState) → Unplanned n s → is_due now s ≡ true → (s.name == n) ≡ false
unfolding is_due
due-apart n now s h t = ground (arith, h, t)

Unlinked-erase : (n p : ℕ) (es : List (ℕ × ℕ)) → Unlinked n es → Unlinked n (erase p es)
Unlinked-erase n p es u q h = elim (Bool-cases (q == p)) [
  | inl t ↦ no_name n (sym h ∙ name_of-erase p q es ∙ rw t refl)
  | inr t ↦ u q (sym (name_of-erase p q es ∙ rw t refl) ∙ h)
]

Unlinked-link_due :
    (n m : ℕ) (b : Bool) (o : Option ℕ) (es : List (ℕ × ℕ))
    → (b ≡ true → (m == n) ≡ false)
    → Unlinked n es
    → Unlinked n (link_due b o m es)
unfolding link_due link name_of
Unlinked-link_due n m false o es d u q h = u q h
Unlinked-link_due n m true none es d u q h = u q h
Unlinked-link_due n m true (some p) es d u q h = elim (Bool-cases (p == q)) [
  | inl t ↦
      other_name n m (d refl) (ap (λ b. if b then some m else name_of q (erase p es)) (sym t) ∙ h)
  | inr t ↦
      Unlinked-erase n p es u q (ap (λ b. if b then some m else name_of q (erase p es)) (sym t) ∙ h)
]

restart_one-PassedBy :
    (n : ℕ) (b : Bool) (launched : Option ℕ) (now : ℕ) (s : ProcessState) (ss : List ProcessState)
    (es : List (ℕ × ℕ))
    → (r : List ProcessState × List (ℕ × ℕ)) → (b ≡ true → (s.name == n) ≡ false)
    → All (Unplanned n) (s ∷ ss)
    → Unlinked n es
    → PassedBy n ss r
    → PassedBy n (s ∷ ss) (restart_one b launched now s ss es r)
unfolding restart_one
restart_one-PassedBy n true (some pid) now s ss es r d h u k =
    PassedBy-other n s (do_start now (some pid) (unplan s)) ss r
      (do_start-name now (some pid) (unplan s) ∙ unplan-name s) (d refl) k
restart_one-PassedBy n true none now s ss es r d h u k =
    PassedBy-other n s (do_start now none (unplan s)) ss (ss, es)
      (do_start-name now none (unplan s) ∙ unplan-name s) (d refl) (refl, h.1, u)
restart_one-PassedBy n false launched now s ss es r d h u k = PassedBy-same n s ss r h.0 k

-- A round of restarts passes by a process that is not pending.
pub restart_due-PassedBy :
    (n now : ℕ) (launch : ℕ → Option ℕ) (ss : List ProcessState) (es : List (ℕ × ℕ))
    → All (Unplanned n) ss
    → Unlinked n es
    → PassedBy n ss (restart_due now launch ss es)
unfolding restart_due
restart_due-PassedBy n now launch [] es h u = (refl, h, u)
restart_due-PassedBy n now launch (s ∷ ss) es h u =
    restart_one-PassedBy n (is_due now s) (launch s.name) now s ss es _ (due-apart n now s h.0) h u
      (restart_due-PassedBy n now launch ss _ h.1
        (Unlinked-link_due n s.name (is_due now s) (launch s.name) es (due-apart n now s h.0) u))

-- The exit of another child changes nothing for it either.
pub exit_found-PassedBy :
    (n : ℕ) (p : Platform) (now pid exit_status : ℕ) (o : Option ℕ) (v : Supervisor)
    → (o ≢ some n)
    → All (Unplanned n) v.processes
    → Unlinked n v.pid_to_name
    → let w = exit_found p now pid exit_status o v in
      PassedBy n v.processes (w.processes, w.pid_to_name)
unfolding exit_found
exit_found-PassedBy n p now pid exit_status none v a h u = (refl, h, u)
exit_found-PassedBy n p now pid exit_status (some m) v a h u = (
  find-change n m _ v.processes (child_exited-name p v.running now exit_status) d,
  change-Unplanned n m _ v.processes (child_exited-name p v.running now exit_status) d h,
  Unlinked-erase n pid v.pid_to_name u,
)
  where
    d : (m == n) ≡ false
    d = elim (Bool-cases (m == n)) [ inl t ↦ absurd (a (ap some ((==_iff m n).0 t))) | inr t ↦ t ]
