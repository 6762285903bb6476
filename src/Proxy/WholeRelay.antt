-- ===== src/Proxy/WholeRelay.antt =====
-- A connection of core/rust/src/proxy.rs from its first byte to the client's last: `handle_client` up to
-- the forwarding, and then `client_to_server`.
use pg_prism.Prelude.{
  ℕ, ◌<◌, true, List, ◌++◌, Option, ◌≡◌, ◌≢◌, ap, ◌∙◌, length, All, append_assoc, leb, false,
}
use pg_prism.Text.{Bytes}
use pg_prism.Net.{IpAddr}
use pg_prism.Net.Cidr.{CidrCrate}
use pg_prism.Trust.{RejectionLog, is_trusted}
use pg_prism.Guardian.Rules.{deny, ConnectionContext, LocalTime}
use pg_prism.Protocol.{inject_ip_startup}
use pg_prism.Proxy.Stream.{Incoming, BufReader, buffered, closed, content, flatten, Outgoing}
use pg_prism.Proxy.Forward.{Relay, half_closed, client_to_server}
use pg_prism.Proxy.Forward.Copy.{Works}
use pg_prism.Proxy.Forward.Relayed.{Message}
use pg_prism.Proxy.Forward.Messages.{
  FitsLength, encode_all, passed, refusals, client_to_server-passed,
}
use pg_prism.Proxy.Handshake.Asking.{answers_to}
use pg_prism.Proxy.Handshake.Answered.{Greeting, Greets}
use pg_prism.Proxy.Client.{accepts, Session, forwarding, ProxyConfig, new_socket, handle_client}
use pg_prism.Proxy.Client.Upstream.{packet}
use pg_prism.Proxy.Client.Complete.{context_for}
use pg_prism.Proxy.Client.Greeted.{hello_of, handle_client-answers}

abbrev pub relay_of_session : Session → Relay
relay_of_session s = record { reader = s.client_in; upstream = s.upstream; client = s.client_out }

module _ (crate : CidrCrate) (cfg : ProxyConfig crate) (now : LocalTime) (peer_ip : IpAddr) where
  -- What the server and the client have been sent when the client is done.
  pub record Relayed (g : Greeting) (ms : List Message) (out : Outgoing) (last : Relay)
      : Type 0 where
    pub to_server :
        last.upstream.sent
        ≡ packet (inject_ip_startup g.payload g.ip)
          ++ passed (context_for crate cfg now peer_ip (hello_of g)) ms
    pub to_client :
        last.client.sent
        ≡ out.sent
          ++ (answers_to cfg.limits cfg.tls_acceptor g.payload g.codes g.encrypted
              ++ refusals (context_for crate cfg now peer_ip (hello_of g)) ms)

  -- From a client's first byte to its last: if its peer is trusted, it keeps to the protocol and the
  -- limits and waits for each answer to a request for encryption, the TLS library accepts the session
  -- it asks for, Guardian does not deny it, the server takes the connection in time, all writes
  -- succeed, and the client sends whole messages behind its startup message and closes, then
  -- `handle_client` begins to forward, and `client_to_server` ends with the half-close, given fuel
  -- above the numbers of refused requests and of messages: the server has been sent exactly the
  -- rewritten startup message and the messages that Guardian lets through on the word that it gave on
  -- the address, user and database, and the client the answers to its requests and a refusal for each
  -- of the other messages.
  pub handle_client-Relayed :
      (fuel after rounds : ℕ) (fate : ℕ → Option ℕ) (log : RejectionLog) (clock : ℕ)
      (socket : Incoming) (out : Outgoing) (g : Greeting) (ms : List Message)
      → length g.codes < fuel
      → length ms < rounds
      → is_trusted crate cfg.trusted peer_ip ≡ true
      → Works out
      → Greets cfg.limits cfg.tls_acceptor socket g
      → (context_for crate cfg now peer_ip (hello_of g)).action ≢ deny
      → leb cfg.limits.upstream_connect_timeout after ≡ false
      → Works (new_socket fate)
      → All FitsLength ms
      → flatten g.stream.chunks ≡ encode_all ms
      → g.stream.ending ≡ closed
      → (s : Session) × ((handle_client crate fuel cfg now
            (accepts after fate)
            log
            clock
            peer_ip
            socket
            out).0
          ≡ forwarding s)
        × ((last : Relay) × (client_to_server rounds s.context (relay_of_session s)
              ≡ (half_closed, last))
            × Relayed g ms out last)
  unfolding content
  handle_client-Relayed fuel after rounds fate log clock socket out g ms enough enough' trusted
        works greets let_in in_time up_works fit sends ends =
      let (s, begins, answered) =
        handle_client-answers crate cfg now peer_ip fuel after fate log clock socket out g enough
          trusted works greets let_in
          (record { in_time = in_time; prefix = up_works 0; body = up_works 1 }) in
      let (last, run, up, client) =
        client_to_server-passed s.context ms (relay_of_session s) rounds fit enough'
          (arrived s answered.client_in)
          (ap (λ (r : BufReader). r.ending) answered.client_in ∙ ends)
          (λ n. ap (λ (f : ℕ → Option ℕ). f n) answered.upstream_fate ∙ up_works n)
          answered.works in
      (
        s,
        begins,
        (
          last,
          run,
          record {
            to_server =
                up
                ∙ ap (λ (b : Bytes). b ++ passed s.context ms) answered.sent
                ∙ ap
                    (λ (c : ConnectionContext).
                      packet (inject_ip_startup g.payload g.ip) ++ passed c ms)
                    answered.context;
            to_client =
                client
                ∙ ap (λ (b : Bytes). b ++ refusals s.context ms) answered.answers
                ∙ append_assoc out.sent answers (refusals s.context ms)
                ∙ ap (λ (c : ConnectionContext). out.sent ++ (answers ++ refusals c ms))
                    answered.context;
          },
        ),
      )
    where
      answers : Bytes
      answers = answers_to cfg.limits cfg.tls_acceptor g.payload g.codes g.encrypted

      arrived :
          (s : Session) → s.client_in ≡ buffered g.stream → content s.client_in ≡ encode_all ms
      arrived s e = rw e sends
