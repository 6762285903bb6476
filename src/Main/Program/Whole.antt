-- ===== src/Main/Program/Whole.antt =====
-- What the process of core/rust/src/main.rs has the server sent, over all of its connections.
use pg_prism.Prelude.{
  ℕ, zero, suc, Bool, true, List, [], ◌∷◌, Option, some, ◌≡◌, inl, inr, refl, sym, ap, ◌∙◌,
  get_elem?,
}
use pg_prism.Text.{Str, Bytes}
use pg_prism.Net.Cidr.{CidrCrate}
use pg_prism.Limits.{Env}
use pg_prism.Trust.{RejectionLog, default_log, is_trusted}
use pg_prism.Guardian.Rules.{YamlResult}
use pg_prism.Proxy.Stream.{End}
use pg_prism.Proxy.Client.{Outcome, Session, forwarding, ProxyConfig, handle_client}
use pg_prism.Proxy.Client.Upstream.{handle_client-MayEnd}
use pg_prism.Proxy.Forward.Failing.{FailsOnce}
use pg_prism.Proxy.Tasks
use pg_prism.Proxy.Tasks.{State, Reach}
use pg_prism.Proxy.Tasks.WholeSession.{Told, handle_client-Told}
use pg_prism.Tls.{Machine, TlsTools}
use pg_prism.Main.{Round, spawn, sleep, accept_loop}
use pg_prism.Main.Accept.{spawned, accepted, accept_loop-serves}
use pg_prism.Main.Startup.{Start, bad_trust, bad_limits, bad_rules, bad_bind, serves, start}
use pg_prism.Main.Startup.Fatal.{Configured, Explained, start-Explained}
use pg_prism.Main.Program.{Connection, spawn_all, loop, main}

module _ (crate : CidrCrate) (cfg : ProxyConfig crate) where
  -- The task of the connection, at some state of the throttle.
  abbrev Handled : ℕ → Connection → Outcome → Type 0
  Handled fuel c outcome =
      (log : RejectionLog) × ((handle_client crate fuel cfg c.now c.server log c.clock c.peer_ip
          c.socket c.out).0
        ≡ outcome)

  spawn_all-Handled :
      (fuel : ℕ) (rounds : List (Round Connection)) (n : ℕ) (outcome : Outcome) (log : RejectionLog)
      → get_elem? (spawn_all crate fuel cfg log rounds).0 n ≡ some outcome
      → (c : Connection) × (get_elem? (spawned rounds) n ≡ some c) × Handled fuel c outcome
  unfolding spawn_all
  spawn_all-Handled fuel [] n outcome log e = absurd (cc e)
  spawn_all-Handled fuel (sleep ms ∷ rounds) n outcome log e =
      spawn_all-Handled fuel rounds n outcome log e
  spawn_all-Handled fuel (spawn c ∷ rounds) zero outcome log e = (c, refl, (log, cc e))
  spawn_all-Handled fuel (spawn c ∷ rounds) (suc n) outcome log e =
      spawn_all-Handled fuel rounds n outcome _ e

  -- Only a trusted peer gets to the forwarding.
  forwarding_is_trusted :
      (fuel : ℕ) (c : Connection) (log : RejectionLog) (session : Session)
      → (handle_client crate fuel cfg c.now c.server log c.clock c.peer_ip c.socket c.out).0
        ≡ forwarding session
      → is_trusted crate cfg.trusted c.peer_ip ≡ true
  forwarding_is_trusted fuel c log session e =
      elim (handle_client-MayEnd crate cfg c.now c.peer_ip fuel c.server log c.clock c.socket
        c.out) [ inl (known, may) ↦ known | inr (stranger, ends) ↦ absurd (cc (ends, e)) ]

module _ (crate : CidrCrate) (tools : TlsTools) (can_bind : Str → Bool) (env : Env)
    (file : Option YamlResult) (before : Machine) where
  -- A connection of the process, the `n`-th that was accepted, and all that the server was sent on it.
  pub record Served (results : List (Option Connection)) (n : ℕ) (session : Session) (sent : Bytes)
      : Type 0 where
    pub cfg : ProxyConfig crate
    pub after : Machine
    pub configured : Configured crate tools can_bind env file before cfg after
    pub connection : Connection
    pub accepts : get_elem? (accepted results) n ≡ some connection
    pub trusts : is_trusted crate cfg.trusted connection.peer_ip ≡ true
    pub told : Told crate cfg connection.now connection.peer_ip session sent

  loop-Served :
      (fuel : ℕ) (started : Start crate × Machine) (results : List (Option Connection)) (n : ℕ)
      (session : Session) (answers : List Bytes) (answers_end : End) (s : State)
      → Explained crate tools can_bind env file before started
      → get_elem? (loop crate fuel started.0 results).0 n ≡ some (forwarding session)
      → FailsOnce session.upstream
      → Reach session.context (Tasks.begin session answers answers_end) s
      → Served results n session s.upstream.sent
  loop-Served fuel (bad_trust x, after) results n session answers answers_end s why e once reach =
      absurd (cc e)
  loop-Served fuel (bad_limits x, after) results n session answers answers_end s why e once reach =
      absurd (cc e)
  loop-Served fuel (bad_rules x, after) results n session answers answers_end s why e once reach =
      absurd (cc e)
  loop-Served fuel (bad_bind x, after) results n session answers answers_end s why e once reach =
      absurd (cc e)
  loop-Served fuel (serves listen upstream cfg, after) results n session answers answers_end s why e
        once reach =
      let (c, nth, (log, handled)) =
        spawn_all-Handled crate cfg fuel (accept_loop 0 results) n (forwarding session) default_log
          e in
      record {
        cfg = cfg;
        after = after;
        configured = why.0;
        connection = c;
        accepts =
            ap (λ (cs : List Connection). get_elem? cs n) (sym (accept_loop-serves results).0)
            ∙ nth;
        trusts = forwarding_is_trusted crate cfg fuel c log session handled;
        told =
            handle_client-Told crate cfg c.now c.peer_ip fuel c.server log c.clock c.socket c.out
              session answers answers_end s handled once reach;
      }

  -- The whole process, whatever the environment, the files, the clients and the server are: where a
  -- task begins to forward, it is that of the socket that was accepted at its place, from a peer of
  -- the allowlist that was read, under limits and rules that were read without an error and the TLS
  -- that was loaded; and in every state that its two directions can reach, whichever writes fail, if
  -- nothing is sent to the server behind a failed write to it, all that the server has been sent on
  -- the connection is the rewritten startup message, which shows the client's address, and then the
  -- messages that pass under the word of those rules, whole and in order, and a part of the next at
  -- most.
  pub main-Served :
      (fuel : ℕ) (results : List (Option Connection)) (n : ℕ) (session : Session)
      (answers : List Bytes) (answers_end : End) (s : State)
      → get_elem? (main crate tools can_bind env file before fuel results).outcomes n
        ≡ some (forwarding session)
      → FailsOnce session.upstream
      → Reach session.context (Tasks.begin session answers answers_end) s
      → Served results n session s.upstream.sent
  unfolding main
  main-Served fuel results n session answers answers_end s e once reach =
      loop-Served fuel (start crate tools can_bind env file before) results n session answers
        answers_end s (start-Explained crate tools can_bind env file before) e once reach
