-- ===== src/Main/Program/Throttle.antt =====
-- The lines that the process of core/rust/src/main.rs writes about refused peers.
use pg_prism.Prelude.{
  ℕ, ◌+◌, ◌<◌, Bool-cases, List, [], ◌∷◌, Option, ◌≡◌, refl, inl, inr, arith, length, if◌then◌else◌,
}
use pg_prism.Text.{Str}
use pg_prism.Limits.{u64_size}
use pg_prism.Net.Cidr.{CidrCrate}
use pg_prism.Trust.{RejectionLog, default_log, is_trusted, should_log}
use pg_prism.Trust.Throttle.{run_log, accounted, run_log-accounted}
use pg_prism.Proxy.Client.{ProxyConfig, handle_client}
use pg_prism.Main.{Round, spawn, sleep, accept_loop}
use pg_prism.Main.Accept.{spawned, accepted, accept_loop-serves}
use pg_prism.Main.Startup.{serves}
use pg_prism.Main.Program.{Connection, spawn_all, loop}

module _ (crate : CidrCrate) (cfg : ProxyConfig crate) where
  -- When the peers that are not on the allowlist were refused.
  abbrev pub refused_at : List Connection → List ℕ
  refused_at [] = []
  refused_at (c ∷ cs) =
      if is_trusted crate cfg.trusted c.peer_ip then refused_at cs else c.clock ∷ refused_at cs

  spawn_all-run_log :
      (fuel : ℕ) (rounds : List (Round Connection)) (log : RejectionLog)
      → (spawn_all crate fuel cfg log rounds).1 ≡ (run_log log (refused_at (spawned rounds))).1
  unfolding spawn_all run_log handle_client
  spawn_all-run_log fuel [] log = refl
  spawn_all-run_log fuel (sleep ms ∷ rounds) log = spawn_all-run_log fuel rounds log
  spawn_all-run_log fuel (spawn c ∷ rounds) log =
      elim (Bool-cases (is_trusted crate cfg.trusted c.peer_ip)) [
        | inl known ↦ rw known (spawn_all-run_log fuel rounds log)
        | inr foreign ↦ rw foreign (spawn_all-run_log fuel rounds (should_log log c.clock).1)
      ]

  -- Over all the connections of a process that serves, every refused peer is either accounted for by
  -- a line that was written, or still counted, while there are fewer than the counter holds.
  pub loop-accounted :
      (fuel : ℕ) (listen upstream : Str) (results : List (Option Connection))
      → length (refused_at (accepted results)) < u64_size
      → accounted (run_log default_log (refused_at (accepted results))).0
          + (loop crate fuel (serves listen upstream cfg) results).1.suppressed
        ≡ length (refused_at (accepted results))
  loop-accounted fuel listen upstream results few =
      rw
        (spawn_all-run_log fuel (accept_loop 0 results) default_log, (accept_loop-serves results).0)
        (omega (
          arith,
          run_log-accounted default_log (refused_at (accepted results)) (omega (arith, few)),
        ))
