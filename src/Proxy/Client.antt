-- ===== src/Proxy/Client.antt =====
-- `handle_client` of core/rust/src/proxy.rs up to the forwarding, with `connect_upstream` and
-- `configure_socket`. Log lines are left out, but for the throttle of those about refused peers.
pub mod Upstream
pub mod Shown
pub mod Framed
pub mod Complete
pub mod Greeted
use pg_prism.Prelude.{
  ℕ, ◌+◌, Bool, true, false, not, List, [], ◌∷◌, ◌++◌, Option, none, some, if◌then◌else◌, leb,
  length,
}
use pg_prism.Text.{Str, Bytes, codes}
use pg_prism.Wire.{as_u32, to_be_bytes}
use pg_prism.Net.{IpAddr}
use pg_prism.Net.Cidr.{CidrCrate}
use pg_prism.Limits.{Limits, keepalive_interval, keepalive_retries}
use pg_prism.Trust.{TrustedProxies, is_trusted, RejectionLog, should_log}
use pg_prism.Guardian.Rules.{
  Action, allow, inspect, deny, Guardian, ConnectionContext, LocalTime, check_connection,
}
use pg_prism.Protocol.{
  is_supported_startup, make_error_response, extract_user_db, inject_ip_startup,
}
use pg_prism.Proxy.Stream.{Incoming, BufReader, buffered, Outgoing, write_all}
use pg_prism.Proxy.Header.{Step, ok, protocol, io, timed_out}
use pg_prism.Proxy.Handshake.{
  TlsAcceptor, HandshakeOutcome, session, cancel, be_u32, perform_handshake,
}

-- What `configure_socket` asks of a socket; a failure to set an option is only logged.
pub record SocketOptions : Type 0 where
  pub nodelay : Bool
  pub keepalive_time : ℕ
  pub keepalive_interval_time : ℕ
  pub keepalive_tries : ℕ

unfoldable pub configure_socket : Limits → SocketOptions
configure_socket limits = record {
  nodelay = true;
  keepalive_time = limits.keepalive_time;
  keepalive_interval_time = keepalive_interval;
  keepalive_tries = keepalive_retries;
}

-- How connecting to the server ends, and how long it takes, in seconds; a connection that is made
-- has the fate of its writes.
pub data Connecting : Type 0 where
  accepts : (after : ℕ) (fate : ℕ → Option ℕ) → Connecting
  fails : Connecting
  hangs : Connecting

pub data ConnectResult : Type 0 where
  connected : Outgoing → SocketOptions → ConnectResult
  unreachable : ConnectResult
  no_answer : ConnectResult

abbrev pub new_socket : (ℕ → Option ℕ) → Outgoing
new_socket fate = record { sent = []; writes = 0; fate = fate }

-- `connect_upstream`, under its deadline.
unfoldable pub connect_upstream : Limits → Connecting → ConnectResult
connect_upstream limits hangs = no_answer
connect_upstream limits fails = unreachable
connect_upstream limits (accepts after fate) =
    if leb limits.upstream_connect_timeout after
    then no_answer
    else connected (new_socket fate) (configure_socket limits)

-- What a session has when the forwarding begins.
pub record Session : Type 0 where
  pub client_in : BufReader
  pub client_out : Outgoing
  pub upstream : Outgoing
  pub context : ConnectionContext

-- How `handle_client` ends: `Ok(())` or an error, with what was sent to the client and, if it was
-- connected to, to the server; or it goes on to the forwarding.
pub data Outcome : Type 0 where
  finished : (client : Outgoing) (upstream : Option Outgoing) → Outcome
  failed : (client : Outgoing) (upstream : Option Outgoing) → Outcome
  forwarding : Session → Outcome

abbrev pub then_write : Bytes → Bool × Outgoing → Bool × Outgoing
then_write second (true, out) = write_all out second
then_write second (false, out) = (false, out)

-- Two writes in a row; the second is made only if the first succeeds.
unfoldable pub write_both : Outgoing → Bytes → Bytes → Bool × Outgoing
write_both out first second = then_write second (write_all out first)

-- A packet: its length with the prefix, as 32 bits, and its payload.
unfoldable pub write_packet : Outgoing → Bytes → Bool × Outgoing
unfolding write_both
write_packet out payload = write_both out (to_be_bytes (as_u32 (length payload + 4))) payload

-- `let _ = stream.write_all(..)`: the result does not matter.
abbrev pub write_anyway : Outgoing → Bytes → Outgoing
write_anyway out bytes = (write_all out bytes).1

abbrev pub unsupported_packet : Bytes
unsupported_packet =
    make_error_response (codes "PG-Prism supports PostgreSQL protocol 3 only") (codes "08P01")

abbrev pub denied_packet : Str → Bytes
denied_packet client_ip =
    make_error_response (codes "Connection denied by PG-Prism Guardian for IP: " ++ client_ip)
      (codes "28000")

abbrev pub unreachable_packet : Bytes
unreachable_packet =
    make_error_response (codes "PG-Prism could not reach the PostgreSQL backend") (codes "08006")

abbrev pub finished_if : Bool × Outgoing → Option Outgoing → Outcome
finished_if (true, client) upstream = finished client upstream
finished_if (false, client) upstream = failed client upstream

abbrev pub relayed : Outgoing → Bool × Outgoing → Outcome
relayed client (true, up) = finished client (some up)
relayed client (false, up) = failed client (some up)

-- The relay of a CancelRequest.
pub relay_cancel : ConnectResult → Outgoing → Bytes → Outcome
relay_cancel (connected upstream _) client payload = relayed client (write_packet upstream payload)
relay_cancel _ client payload = finished client none

-- Behind the rewritten startup message.
abbrev pub start_forwarding : Incoming → Outgoing → ConnectionContext → Bool × Outgoing → Outcome
start_forwarding stream client context (true, up) =
    forwarding (record {
      client_in = buffered stream;
      client_out = client;
      upstream = up;
      context = context;
    })
start_forwarding stream client context (false, up) = failed client (some up)

-- The startup message is rewritten and sent on a connection that was made.
pub open_session : ConnectResult → Incoming → Outgoing → Bytes → Str → ConnectionContext → Outcome
open_session (connected upstream _) stream client payload client_ip context =
    start_forwarding stream client context
      (write_packet upstream (inject_ip_startup payload client_ip))
open_session _ stream client payload client_ip context =
    finished (write_anyway client unreachable_packet) none

-- Guardian's action on the connection.
pub on_action :
    Action → Limits → Connecting → Incoming → Outgoing → Bytes → Str → ConnectionContext → Outcome
unfolding open_session
on_action deny limits server stream client payload client_ip context =
    finished_if (write_all client (denied_packet client_ip)) none
on_action _ limits server stream client payload client_ip context =
    open_session (connect_upstream limits server) stream client payload client_ip context

module _ (crate : CidrCrate) where
  -- `ProxyConfig`; the server's address is what `Connecting` stands for.
  pub record ProxyConfig : Type 0 where
    pub guardian : Guardian
    pub tls_acceptor : Option TlsAcceptor
    pub trusted : TrustedProxies crate
    pub limits : Limits

  -- A startup message has been read.
  pub on_startup :
      ProxyConfig → LocalTime → Connecting → Incoming → Outgoing → Bytes → Str → Outcome
  unfolding on_action
  on_startup cfg now server stream client payload client_ip =
      let (user, db) = extract_user_db payload in
      let context = check_connection crate cfg.guardian client_ip user db now in
      if not (is_supported_startup (be_u32 payload))
      then finished (write_anyway client unsupported_packet) none
      else on_action context.action cfg.limits server stream client payload client_ip context

  -- What the handshake gave.
  pub on_handshake :
      ProxyConfig → LocalTime → Connecting → Step HandshakeOutcome × Outgoing → Outcome
  unfolding relay_cancel on_startup
  on_handshake cfg now server (timed_out, client) = finished client none
  on_handshake cfg now server (protocol _, client) = finished client none
  on_handshake cfg now server (io, client) = failed client none
  on_handshake cfg now server (ok (cancel payload client_ip), client) =
      relay_cancel (connect_upstream cfg.limits server) client payload
  on_handshake cfg now server (ok (session stream payload client_ip), client) =
      on_startup cfg now server stream client payload client_ip

  -- `handle_client`: the peer's address, the socket with what arrives on it and the fate of what is
  -- sent, the throttle and its clock. The fuel is that of the handshake. It is taken from where the
  -- peer's address has been had and the options of the client's socket are set: no later step reads
  -- those, and without an address the task ends at once.
  unfoldable pub handle_client :
      ℕ
      → ProxyConfig
      → LocalTime
      → Connecting
      → RejectionLog
      → ℕ
      → IpAddr
      → Incoming
      → Outgoing
      → Outcome × RejectionLog
  unfolding on_handshake
  handle_client fuel cfg now server log clock peer_ip socket out =
      if not (is_trusted crate cfg.trusted peer_ip)
      then (finished out none, (should_log log clock).1)
      else (
        on_handshake cfg now server (perform_handshake fuel cfg.limits cfg.tls_acceptor socket out),
        log,
      )
