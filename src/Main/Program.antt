-- ===== src/Main/Program.antt =====
-- `main` of core/rust/src/main.rs as a whole: the startup, the accept loop, and a task of
-- `handle_client` for each socket. The tasks share the configuration, which does not change, and the
-- throttle of the refusals, which they ask one after the other.
pub mod Whole
pub mod Throttle
mod Tests
use pg_prism.Prelude.{ℕ, Bool, true, List, [], ◌∷◌, Option, none, some}
use pg_prism.Text.{Str}
use pg_prism.Net.{IpAddr}
use pg_prism.Net.Cidr.{CidrCrate}
use pg_prism.Limits.{Env}
use pg_prism.Trust.{RejectionLog, default_log}
use pg_prism.Guardian.Rules.{LocalTime, YamlResult}
use pg_prism.Proxy.Stream.{Incoming, Outgoing}
use pg_prism.Proxy.Client.{Connecting, Outcome, ProxyConfig, handle_client}
use pg_prism.Tls.{Machine, TlsTools}
use pg_prism.Main.{Round, spawn, sleep, accept_loop}
use pg_prism.Main.Startup.{Start, bad_trust, bad_limits, bad_rules, bad_bind, serves, start}

-- A socket that `accept` gives: its peer, what arrives on it and becomes of what is sent, the local
-- time and the clock of the process when it is served, and how connecting to the server goes.
pub record Connection : Type 0 where
  pub peer_ip : IpAddr
  pub socket : Incoming
  pub out : Outgoing
  pub now : LocalTime
  pub clock : ℕ
  pub server : Connecting

module _ (crate : CidrCrate) where
  -- The tasks of the rounds, in the order in which they ask the throttle. `fuel` is that of each
  -- handshake.
  pub spawn_all :
      ℕ → ProxyConfig crate → RejectionLog → List (Round Connection) → List Outcome × RejectionLog
  spawn_all fuel cfg log [] = ([], log)
  spawn_all fuel cfg log (sleep ms ∷ rounds) = spawn_all fuel cfg log rounds
  spawn_all fuel cfg log (spawn c ∷ rounds) =
      let (outcome, log') =
        handle_client crate fuel cfg c.now c.server log c.clock c.peer_ip c.socket c.out in
      let (outcomes, final) = spawn_all fuel cfg log' rounds in (outcome ∷ outcomes, final)

  -- How the process started, how each task ended or began to forward, and the throttle behind them.
  pub record Process : Type 0 where
    pub start : Start crate × Machine
    pub outcomes : List Outcome
    pub log : RejectionLog

  abbrev pub loop : ℕ → Start crate → List (Option Connection) → List Outcome × RejectionLog
  loop fuel (serves listen upstream cfg) results =
      spawn_all fuel cfg default_log (accept_loop 0 results)
  loop fuel (bad_trust e) results = ([], default_log)
  loop fuel (bad_limits e) results = ([], default_log)
  loop fuel (bad_rules e) results = ([], default_log)
  loop fuel (bad_bind addr) results = ([], default_log)

  -- `main`, on what `accept` gives.
  unfoldable pub main :
      TlsTools
      → (Str → Bool)
      → Env
      → Option YamlResult
      → Machine
      → ℕ
      → List (Option Connection)
      → Process
  main tools can_bind env file machine fuel results =
      let started = start crate tools can_bind env file machine in
      let (outcomes, log) = loop fuel started.0 results in
      record { start = started; outcomes = outcomes; log = log }
