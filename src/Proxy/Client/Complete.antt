-- ===== src/Proxy/Client/Complete.antt =====
-- `handle_client` of core/rust/src/proxy.rs on a client that follows the protocol and is let in.
use pg_prism.Prelude.{
  ℕ, suc, ◌+◌, ◌<◌, true, false, [], ◌∷◌, ◌++◌, Option, none, ◌≡◌, ◌≢◌, refl, length, leb,
}
use pg_prism.Text.{Str, Bytes}
use pg_prism.Wire.{u32_size}
use pg_prism.Net.{IpAddr}
use pg_prism.Net.Cidr.{CidrCrate}
use pg_prism.Limits.{Limits}
use pg_prism.Trust.{RejectionLog, is_trusted}
use pg_prism.Guardian.Rules.{
  Action, allow, inspect, deny, ConnectionContext, LocalTime, check_connection,
}
use pg_prism.Protocol.{is_supported_startup, extract_user_db, inject_ip_startup}
use pg_prism.Proxy.Stream.{Incoming, buffered, into_inner, content, flatten, Outgoing, write_all}
use pg_prism.Proxy.Stream.Ahead.{Ahead}
use pg_prism.Proxy.Header.Words.{line_of, IsWord, IsPrinted}
use pg_prism.Proxy.Handshake.{be_u32}
use pg_prism.Proxy.Handshake.Bounds.{FitsLimits}
use pg_prism.Proxy.Handshake.Complete.{framed, perform_handshake-framed}
use pg_prism.Proxy.Client.{
  accepts, Session, forwarding, new_socket, connect_upstream, write_packet, write_both,
  open_session, on_action, ProxyConfig, on_startup, on_handshake, handle_client,
}
use pg_prism.Proxy.Client.Upstream.{packet}

-- A client's first bytes: the load balancer's header, and its own startup message.
pub record Hello : Type 0 where
  pub family : Str
  pub ip : Str
  pub tail : Str
  pub payload : Bytes
  pub rest : Bytes

abbrev pub hello_bytes : Hello → Bytes
hello_bytes h = line_of h.family h.ip h.tail ++ b'\n' ∷ (framed h.payload ++ h.rest)

-- It keeps to the protocol and to the limits.
pub record IsHello (limits : Limits) (h : Hello) : Type 0 where
  pub family : IsWord h.family
  pub ip : IsWord h.ip
  pub tail : IsPrinted h.tail
  pub short : length (line_of h.family h.ip h.tail) < limits.max_proxy_header_len
  pub fits : FitsLimits limits h.payload
  pub small : length h.payload + 4 < u32_size
  pub supported : is_supported_startup (be_u32 h.payload) ≡ true

-- A server that takes the connection in time, and the two writes of the startup message.
pub record Takes (limits : Limits) (after : ℕ) (fate : ℕ → Option ℕ) : Type 0 where
  pub in_time : leb limits.upstream_connect_timeout after ≡ false
  pub prefix : fate 0 ≡ none
  pub body : fate 1 ≡ none

module _ (crate : CidrCrate) (cfg : ProxyConfig crate) (now : LocalTime) (peer_ip : IpAddr) where
  -- Guardian's word on the client.
  abbrev pub context_for : Hello → ConnectionContext
  context_for h =
      let (user, db) = extract_user_db h.payload in
      check_connection crate cfg.guardian h.ip user db now

  -- The session: the rewritten message has been sent, and of what the client sent behind its startup
  -- message only the rest of the piece in which that message ends is lost, which was read ahead with
  -- it: the pieces behind that one are still to come, each of them whole.
  pub record Begun (h : Hello) (socket : Incoming) (out : Outgoing) (s : Session) : Type 0 where
    pub sent : s.upstream.sent ≡ packet (inject_ip_startup h.payload h.ip)
    pub context : s.context ≡ context_for h
    pub client_out : s.client_out ≡ out
    pub lost : Bytes
    pub behind : lost ++ content s.client_in ≡ h.rest
    pub unread : s.client_in.buffer ≡ []
    pub ahead : Ahead socket.chunks lost s.client_in.chunks

  module _ (h : Hello) (after : ℕ) (fate : ℕ → Option ℕ) (out : Outgoing)
      (takes : Takes cfg.limits after fate) where
    abbrev pub upstream_session : Incoming → Session
    upstream_session stream = record {
      client_in = buffered stream;
      client_out = out;
      upstream = (write_packet (new_socket fate) (inject_ip_startup h.payload h.ip)).1;
      context = context_for h;
    }

    open_session-takes :
        (stream : Incoming)
        → open_session
            (connect_upstream cfg.limits (accepts after fate))
            stream
            out
            h.payload
            h.ip
            (context_for h)
          ≡ forwarding (upstream_session stream)
    unfolding open_session connect_upstream write_packet write_both write_all
    open_session-takes stream = rw (takes.in_time, takes.prefix, takes.body) refl

    pub upstream_sent :
        (stream : Incoming)
        → (upstream_session stream).upstream.sent ≡ packet (inject_ip_startup h.payload h.ip)
    unfolding write_packet write_both write_all
    upstream_sent stream = rw (takes.prefix, takes.body) refl

    pub upstream_fate : (stream : Incoming) → (upstream_session stream).upstream.fate ≡ fate
    unfolding write_packet write_both write_all
    upstream_fate stream = rw (takes.prefix, takes.body) refl

    on_action-takes :
        (action : Action) (stream : Incoming)
        → action ≢ deny
        → on_action action cfg.limits (accepts after fate) stream out h.payload h.ip (context_for h)
          ≡ forwarding (upstream_session stream)
    unfolding on_action
    on_action-takes deny stream let_in = absurd (let_in refl)
    on_action-takes allow stream let_in = open_session-takes stream
    on_action-takes inspect stream let_in = open_session-takes stream

    pub on_startup-takes :
        (stream : Incoming)
        → is_supported_startup (be_u32 h.payload) ≡ true
        → (context_for h).action ≢ deny
        → on_startup crate cfg now (accepts after fate) stream out h.payload h.ip
          ≡ forwarding (upstream_session stream)
    unfolding on_startup
    on_startup-takes stream supported let_in =
        rw supported (on_action-takes (context_for h).action stream let_in)

  -- A client is let through: if its peer is trusted, it keeps to the protocol and the limits and
  -- sends its startup message without asking for encryption first, Guardian does not deny it, and the
  -- server takes the connection in time and the two writes of the startup message, then
  -- `handle_client` begins to forward, in whatever pieces the client's bytes arrive: with the
  -- rewritten message sent, Guardian's word on the address, user and database, and what the client
  -- sent behind its startup message but for the rest of the piece in which that message ends.
  pub handle_client-begins :
      (fuel after : ℕ) (fate : ℕ → Option ℕ) (log : RejectionLog) (clock : ℕ) (socket : Incoming)
      (out : Outgoing) (h : Hello)
      → is_trusted crate cfg.trusted peer_ip ≡ true
      → IsHello cfg.limits h
      → flatten socket.chunks ≡ hello_bytes h
      → (context_for h).action ≢ deny
      → Takes cfg.limits after fate
      → (s : Session) × ((handle_client crate
            (suc fuel)
            cfg
            now
            (accepts after fate)
            log
            clock
            peer_ip
            socket
            out).0
          ≡ forwarding s)
        × Begun h socket out s
  unfolding handle_client on_handshake content
  handle_client-begins fuel after fate log clock socket out h trusted is e let_in takes =
      let (r, done, behind, ahead) =
        perform_handshake-framed fuel cfg.limits cfg.tls_acceptor h.family h.ip h.tail h.payload
          h.rest socket out is.family is.ip is.tail is.short is.fits is.small is.supported e in
      (
        upstream_session h after fate out takes (into_inner r),
        rw (trusted, done)
            (on_startup-takes h after fate out takes (into_inner r) is.supported let_in),
        record {
          sent = upstream_sent h after fate out takes (into_inner r);
          context = refl;
          client_out = refl;
          lost = r.buffer;
          behind = behind;
          unread = refl;
          ahead = ahead;
        },
      )
