-- ===== src/Main/Accept.antt =====
-- The accept loop of core/rust/src/main.rs on a run of errors, and its sockets.
use pg_prism.Prelude.{
  ℕ, zero, suc, ◌*◌, ◌^◌, min, ◌≤◌, List, [], ◌∷◌, Option, none, some, false, ◌⊎◌, ◌≡◌, refl, ap,
  arith, ◌==◌, replicate, All, inl, inr,
}
use pg_prism.Main.{accept_backoff_max, longer_backoff, Round, spawn, sleep, accept_loop}

-- The sockets that got a task, and those that `accept` gave.
abbrev pub spawned {ℓ} : {A : Type ℓ} → List (Round A) → List A
spawned [] = []
spawned (spawn socket ∷ rounds) = socket ∷ spawned rounds
spawned (sleep ms ∷ rounds) = spawned rounds

abbrev pub accepted {ℓ} : {A : Type ℓ} → List (Option A) → List A
accepted [] = []
accepted (some socket ∷ results) = socket ∷ accepted results
accepted (none ∷ results) = accepted results

-- A sleep is neither none nor above the ceiling.
abbrev pub IsShortRound {ℓ} : {A : Type ℓ} → Round A → Type 0
IsShortRound (spawn socket) = Unit
IsShortRound (sleep ms) = (10 ≤ ms) × (ms ≤ accept_backoff_max)

longer_backoff-bounds :
    (backoff : ℕ)
    → (backoff ≡ 0) ⊎ (10 ≤ backoff)
    → (10 ≤ longer_backoff backoff) × (longer_backoff backoff ≤ accept_backoff_max)
unfolding longer_backoff
longer_backoff-bounds backoff (inl none_yet) = rw none_yet (omega arith, omega arith)
longer_backoff-bounds backoff (inr some_yet) =
    let later : (backoff == 0) ≡ false = ground (arith, some_yet) in
    rw later (omega (arith, some_yet), omega (arith, some_yet))

some_power : (n : ℕ) → 1 ≤ 2 ^ n
some_power zero = omega arith
some_power (suc n) = omega (arith, some_power n)

longer_backoff-doubles :
    (n : ℕ)
    → longer_backoff (min (10 * 2 ^ n) accept_backoff_max) ≡ min (10 * 2 ^ suc n) accept_backoff_max
unfolding longer_backoff
longer_backoff-doubles n =
    let later : (min (10 * 2 ^ n) accept_backoff_max == 0) ≡ false = ground (arith, some_power n) in
    rw later (omega (arith, some_power n))

-- The sleeps of `k` errors in a row, from the `n`-th on: 10 ms, doubled each time, up to the ceiling.
abbrev pub doublings {ℓ} : {A : Type ℓ} → ℕ → ℕ → List (Round A)
doublings n zero = []
doublings n (suc k) = sleep (min (10 * 2 ^ n) accept_backoff_max) ∷ doublings (suc n) k

accept_loop-doublings {ℓ} :
    {A : Type ℓ} (n k : ℕ)
    → accept_loop {A = A} (min (10 * 2 ^ n) accept_backoff_max) (replicate k none)
      ≡ doublings (suc n) k
unfolding accept_loop
accept_loop-doublings n zero = refl
accept_loop-doublings n (suc k) = rw (longer_backoff-doubles n) (
    ap (λ rest. sleep (min (10 * 2 ^ suc n) accept_backoff_max) ∷ rest)
      (accept_loop-doublings (suc n) k))

-- A run of errors, from the start or behind an accepted socket, is slept through with these times.
pub accept_loop-errors {ℓ} :
    {A : Type ℓ} (k : ℕ) → accept_loop {A = A} 0 (replicate k none) ≡ doublings 0 k
unfolding accept_loop longer_backoff
accept_loop-errors zero = refl
accept_loop-errors (suc k) = ap (λ rest. sleep 10 ∷ rest) (accept_loop-doublings 0 k)

rounds_are_short {ℓ} :
    {A : Type ℓ} (backoff : ℕ) (results : List (Option A))
    → (backoff ≡ 0) ⊎ (10 ≤ backoff)
    → All IsShortRound (accept_loop backoff results)
unfolding accept_loop
rounds_are_short backoff [] h = tt
rounds_are_short backoff (some socket ∷ results) h = (tt, rounds_are_short 0 results (inl refl))
rounds_are_short backoff (none ∷ results) h =
    let bounds = longer_backoff-bounds backoff h in
    (bounds, rounds_are_short (longer_backoff backoff) results (inr bounds.0))

spawned-accept_loop {ℓ} :
    {A : Type ℓ} (backoff : ℕ) (results : List (Option A))
    → spawned (accept_loop backoff results) ≡ accepted results
unfolding accept_loop
spawned-accept_loop backoff [] = refl
spawned-accept_loop backoff (some socket ∷ results) =
    ap (λ rest. socket ∷ rest) (spawned-accept_loop 0 results)
spawned-accept_loop backoff (none ∷ results) = spawned-accept_loop (longer_backoff backoff) results

-- Whatever `accept` gives, errors included, the loop goes on: each accepted socket gets its task, in
-- order and once, and no error is slept on for less than 10 ms or for more than a second.
pub accept_loop-serves {ℓ} :
    {A : Type ℓ} (results : List (Option A))
    → (spawned (accept_loop 0 results) ≡ accepted results)
      × All IsShortRound (accept_loop 0 results)
accept_loop-serves results = (spawned-accept_loop 0 results, rounds_are_short 0 results (inl refl))
