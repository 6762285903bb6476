-- ===== src/Proxy/Tasks/WholeSession.antt =====
-- All that the server is sent on a connection: by `handle_client` of core/rust/src/proxy.rs before the
-- forwarding, and by the two tasks behind that.
use mathlib.Core.Path.{subst}
use pg_prism.Proxy.Forward.Failing.{FailsOnce}
use pg_prism.Proxy.Tasks.Upstream.{Got}
use pg_prism.Proxy.Tasks.Upstream.Reached.{Reach-Got}
use pg_prism.Prelude.{ℕ, List, ◌≡◌}
use pg_prism.Text.{Bytes}
use pg_prism.Net.{IpAddr}
use pg_prism.Net.Cidr.{CidrCrate}
use pg_prism.Trust.{RejectionLog}
use pg_prism.Guardian.Rules.{LocalTime}
use pg_prism.Proxy.Stream.{End, Incoming, content, Outgoing}
use pg_prism.Proxy.Client.{Connecting, Session, forwarding, ProxyConfig, handle_client}
use pg_prism.Proxy.Client.Upstream.{packet}
use pg_prism.Proxy.Client.Shown.{Shows, handle_client-Shows}
use pg_prism.Proxy.Tasks.{State, begin, Reach}

module _ (crate : CidrCrate) (cfg : ProxyConfig crate) (now : LocalTime) (peer_ip : IpAddr) where
  -- The startup message that shows the address; then what was made of the bytes behind the client's
  -- startup message under the context that Guardian gave.
  pub record Told (session : Session) (sent : Bytes) : Type 0 where
    pub shows : Shows crate cfg now session
    pub got : Got session.context (content session.client_in) (packet shows.message) sent

  -- Where `handle_client` begins to forward, whichever writes fail behind that, on either socket, if
  -- nothing is sent to the server behind a failed write to it: in every state that the two tasks can
  -- reach, all that the server has been sent on the connection is the rewritten startup message, which
  -- shows the client's address, and then the messages of the client that pass under Guardian's word on
  -- that address, user and database, whole and in order, and a part of the next at most.
  pub handle_client-Told :
      (fuel : ℕ) (server : Connecting) (log : RejectionLog) (clock : ℕ) (socket : Incoming)
      (out : Outgoing) (session : Session) (answers : List Bytes) (answers_end : End) (s : State)
      → (handle_client crate fuel cfg now server log clock peer_ip socket out).0
        ≡ forwarding session
      → FailsOnce session.upstream
      → Reach session.context (begin session answers answers_end) s
      → Told session s.upstream.sent
  handle_client-Told fuel server log clock socket out session answers answers_end s e once reach =
      let shows =
        handle_client-Shows crate cfg now peer_ip fuel server log clock socket out session e in
      record {
        shows = shows;
        got =
            subst (λ before. Got session.context (content session.client_in) before s.upstream.sent)
              shows.sent (Reach-Got session.context session answers answers_end s once reach);
      }
