-- ===== src/Main.antt =====
-- The accept loop of core/rust/src/main.rs, on the results of `accept` in their order. Times are in
-- milliseconds.
pub mod Accept
pub mod Startup
pub mod Program
mod Tests
use pg_prism.Prelude.{ℕ, ◌*◌, min, List, [], ◌∷◌, Option, none, some, ◌==◌, if◌then◌else◌}

-- `ACCEPT_BACKOFF_MAX`
abbrev pub accept_backoff_max : ℕ
accept_backoff_max = 1000

-- The `backoff` behind a failure.
unfoldable pub longer_backoff : ℕ → ℕ
longer_backoff backoff = if backoff == 0 then 10 else min (backoff * 2) accept_backoff_max

-- What a round of the loop does: a task for the socket, or a sleep.
pub data Round {ℓ} (A : Type ℓ) : Type ℓ where
  spawn : A → Round A
  sleep : ℕ → Round A

-- The rounds, from a `backoff` on. `none` is an error of `accept`.
pub accept_loop {ℓ} : {A : Type ℓ} → ℕ → List (Option A) → List (Round A)
unfolding longer_backoff
accept_loop backoff [] = []
accept_loop backoff (some socket ∷ results) = spawn socket ∷ accept_loop 0 results
accept_loop backoff (none ∷ results) =
    sleep (longer_backoff backoff) ∷ accept_loop (longer_backoff backoff) results
