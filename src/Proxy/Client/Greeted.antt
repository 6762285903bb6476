-- ===== src/Proxy/Client/Greeted.antt =====
-- `handle_client` of core/rust/src/proxy.rs on a client that asks for encryption first, as clients of
-- PostgreSQL do, and is let in.
use pg_prism.Prelude.{ℕ, ◌<◌, true, [], ◌++◌, Option, ◌≡◌, ◌≢◌, refl, length}
use pg_prism.Net.{IpAddr}
use pg_prism.Net.Cidr.{CidrCrate}
use pg_prism.Trust.{RejectionLog, is_trusted}
use pg_prism.Guardian.Rules.{deny, LocalTime}
use pg_prism.Protocol.{inject_ip_startup}
use pg_prism.Proxy.Stream.{Incoming, buffered, Outgoing}
use pg_prism.Proxy.Forward.Copy.{Works}
use pg_prism.Proxy.Handshake.Asking.{answers_to}
use pg_prism.Proxy.Handshake.Answered.{Greeting, Greets, perform_handshake-Through}
use pg_prism.Proxy.Client.{accepts, Session, forwarding, ProxyConfig, on_handshake, handle_client}
use pg_prism.Proxy.Client.Upstream.{packet}
use pg_prism.Proxy.Client.Complete.{
  Hello, Takes, context_for, upstream_session, upstream_sent, upstream_fate, on_startup-takes,
}

abbrev pub hello_of : Greeting → Hello
hello_of g = record { family = g.family; ip = g.ip; tail = g.tail; payload = g.payload; rest = [] }

module _ (crate : CidrCrate) (cfg : ProxyConfig crate) (now : LocalTime) (peer_ip : IpAddr) where
  -- The session: the rewritten message has been sent, the client has its answers, and nothing that it
  -- sends behind its startup message is lost.
  pub record Answered (g : Greeting) (fate : ℕ → Option ℕ) (out : Outgoing) (s : Session)
      : Type 0 where
    pub sent : s.upstream.sent ≡ packet (inject_ip_startup g.payload g.ip)
    pub context : s.context ≡ context_for crate cfg now peer_ip (hello_of g)
    pub client_in : s.client_in ≡ buffered g.stream
    pub answers :
        s.client_out.sent
        ≡ out.sent ++ answers_to cfg.limits cfg.tls_acceptor g.payload g.codes g.encrypted
    pub works : Works s.client_out
    pub upstream_fate : s.upstream.fate ≡ fate

  -- A client that asks for encryption first is let through: if its peer is trusted, it keeps to the
  -- protocol and the limits and waits for each answer, the TLS library accepts the session it asks
  -- for, Guardian does not deny it, the writes to it succeed, and the server takes the connection in
  -- time and the two writes of the startup message, then `handle_client` begins to forward, with
  -- fuel above the number of requests that are refused: the client has been sent an `N` for each of
  -- these and an `S` for the one that is granted, the server the rewritten startup message, and
  -- nothing that the client sends behind its startup message is lost.
  pub handle_client-answers :
      (fuel after : ℕ) (fate : ℕ → Option ℕ) (log : RejectionLog) (clock : ℕ) (socket : Incoming)
      (out : Outgoing) (g : Greeting)
      → length g.codes < fuel
      → is_trusted crate cfg.trusted peer_ip ≡ true
      → Works out
      → Greets cfg.limits cfg.tls_acceptor socket g
      → (context_for crate cfg now peer_ip (hello_of g)).action ≢ deny
      → Takes cfg.limits after fate
      → (s : Session) × ((handle_client crate fuel cfg now
            (accepts after fate)
            log
            clock
            peer_ip
            socket
            out).0
          ≡ forwarding s)
        × Answered g fate out s
  unfolding handle_client on_handshake
  handle_client-answers fuel after fate log clock socket out g enough trusted works greets let_in
        takes =
      let (out', done, answers, works') =
        perform_handshake-Through cfg.limits cfg.tls_acceptor socket g fuel out enough works
          greets in
      (
        upstream_session crate cfg now peer_ip (hello_of g) after fate out' takes g.stream,
        rw (trusted, done)
            (on_startup-takes crate cfg now peer_ip (hello_of g) after fate out' takes g.stream
              greets.startup.supported let_in),
        record {
          sent = upstream_sent crate cfg now peer_ip (hello_of g) after fate out' takes g.stream;
          context = refl;
          client_in = refl;
          answers = answers;
          works = works';
          upstream_fate =
              upstream_fate crate cfg now peer_ip (hello_of g) after fate out' takes g.stream;
        },
      )
