-- ===== src/Async/Loop.antt =====
-- How the primitives of include/pman/async reach a suspended coroutine, and what they share.
-- A coroutine is named by the number of its handle.
use pman.Common.{ℕ, suc, ◌≡◌, Bool, true, false, List, [], ◌∷◌, if◌then◌else◌, ◌==◌, length, arith}

-- What becomes of a handle: `loop->post`, or `handle.resume()` where there is no loop.
pub data Wake (A : Type 0) : Type 0 where
  nothing : Wake A
  posts : A → Wake A
  resumes : A → Wake A

-- The test of `EventLoop::current()`.
unfoldable pub wake : {A : Type 0} → Bool → A → Wake A
wake loop h = if loop then posts h else resumes h

-- The guard of coroutine `i` is taken out of the live ones, if there is one.
unfoldable pub remove_guard : ℕ → List ℕ → Bool × List ℕ
remove_guard i [] = (false, [])
remove_guard i (g ∷ gs) =
    let rest = remove_guard i gs in if g == i then (true, gs) else (rest.0, g ∷ rest.1)

pub length-remove_guard :
    (i : ℕ) (gs : List ℕ)
    → (remove_guard i gs).0 ≡ true
    → suc (length (remove_guard i gs).1) ≡ length gs
unfolding remove_guard
length-remove_guard i [] h = cc
length-remove_guard i (g ∷ gs) h = ground (arith, length-remove_guard i gs)
