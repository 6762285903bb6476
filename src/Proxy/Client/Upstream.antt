-- ===== src/Proxy/Client/Upstream.antt =====
-- What `handle_client` of core/rust/src/proxy.rs sends to the server, and for whom.
use pg_prism.Prelude.{
  ℕ, ◌+◌, Bool, true, false, ◌++◌, Option, none, some, ◌≡◌, ◌≢◌, refl, sym, ap, ◌∙◌, leb, length,
  take, drop, take-append-drop, append_assoc, Bool-cases, Option-cases, ◌⊎◌, inl, inr,
}
use pg_prism.Text.{Str, Bytes}
use pg_prism.Wire.{as_u32, to_be_bytes}
use pg_prism.Net.{IpAddr}
use pg_prism.Net.Cidr.{CidrCrate}
use pg_prism.Trust.{is_trusted, RejectionLog}
use pg_prism.Guardian.Rules.{
  Action, allow, inspect, deny, ConnectionContext, LocalTime, check_connection,
}
use pg_prism.Protocol.{is_supported_startup, extract_user_db, inject_ip_startup}
use pg_prism.Proxy.Stream.{Incoming, Outgoing, write_all, buffered}
use pg_prism.Proxy.Header.{Step, ok, protocol, io, timed_out}
use pg_prism.Proxy.Handshake.{HandshakeOutcome, session, cancel, be_u32, perform_handshake}
use pg_prism.Proxy.Client.{
  Connecting, accepts, fails, hangs, new_socket, connect_upstream, Session, Outcome, finished,
  failed, forwarding, write_both, write_packet, relayed, relay_cancel, start_forwarding,
  open_session, on_action, ProxyConfig, on_startup, on_handshake, handle_client, finished_if,
  denied_packet,
}

-- A length prefix that counts itself, and the payload.
abbrev pub packet : Bytes → Bytes
packet payload = to_be_bytes (as_u32 (length payload + 4)) ++ payload

abbrev pub IsPrefix : Bytes → Bytes → Type 0
IsPrefix front whole = (rest : Bytes) × (front ++ rest ≡ whole)

-- All of a packet is sent by writes that succeed, and nothing else by any.
abbrev pub WritesPacket : Bytes → Bool × Outgoing → Type 0
WritesPacket payload (true, up) = up.sent ≡ packet payload
WritesPacket payload (false, up) = IsPrefix up.sent (packet payload)

pub take-IsPrefix : (n : ℕ) (bytes : Bytes) → IsPrefix (take n bytes) bytes
take-IsPrefix n bytes = (drop n bytes, take-append-drop n bytes)

pub IsPrefix-append_left :
    (front part whole : Bytes) → IsPrefix part whole → IsPrefix (front ++ part) (front ++ whole)
IsPrefix-append_left front part whole (rest, e) =
    (rest, append_assoc front part rest ∙ ap (λ (b : Bytes). front ++ b) e)

pub IsPrefix-append_right :
    (part whole more : Bytes) → IsPrefix part whole → IsPrefix part (whole ++ more)
IsPrefix-append_right part whole more (rest, e) =
    (rest ++ more, sym (append_assoc part rest more) ∙ ap (λ (b : Bytes). b ++ more) e)

write_packet-WritesPacket :
    (fate : ℕ → Option ℕ) (payload : Bytes)
    → WritesPacket payload (write_packet (new_socket fate) payload)
unfolding write_packet write_both write_all
write_packet-WritesPacket fate payload = elim (Option-cases (fate 0)) [
  | inr (k, cut) ↦ rw cut (IsPrefix-append_right _ _ payload (take-IsPrefix k _))
  | inl whole ↦ elim (Option-cases (fate 1)) [
    | inl e ↦ rw (whole, e) refl
    | inr (k, e) ↦ rw (whole, e) (IsPrefix-append_left _ _ _ (take-IsPrefix k payload))
  ]
]

module _ (crate : CidrCrate) (cfg : ProxyConfig crate) (now : LocalTime) (peer_ip : IpAddr) where
  -- The payload that a handshake lets through to the server.
  pub data Admits (handshake : Step HandshakeOutcome) : Bytes → Type 0 where
    a_cancel :
        {payload : Bytes} (client_ip : Str)
        → handshake ≡ ok (cancel payload client_ip)
        → Admits handshake payload
    a_startup :
        (stream : Incoming) (payload : Bytes) (client_ip : Str)
        → handshake ≡ ok (session stream payload client_ip)
        → is_supported_startup (be_u32 payload) ≡ true
        → (check_connection crate cfg.guardian client_ip
            (extract_user_db payload).0
            (extract_user_db payload).1
            now).action
          ≢ deny
        → Admits handshake (inject_ip_startup payload client_ip)

  -- How a connection may end, before the forwarding.
  pub data MayEnd (handshake : Step HandshakeOutcome) : Outcome → Type 0 where
    never_connected : {client : Outgoing} → MayEnd handshake (finished client none)
    client_broke : {client : Outgoing} → MayEnd handshake (failed client none)
    relayed_all :
        {client up : Outgoing} (payload : Bytes) (client_ip : Str)
        → handshake ≡ ok (cancel payload client_ip)
        → up.sent ≡ packet payload
        → MayEnd handshake (finished client (some up))
    cut_off :
        {client up : Outgoing} (payload : Bytes)
        → Admits handshake payload
        → IsPrefix up.sent (packet payload)
        → MayEnd handshake (failed client (some up))
    handed_on :
        {s : Session} (stream : Incoming) (payload : Bytes) (client_ip : Str)
        → handshake ≡ ok (session stream payload client_ip)
        → is_supported_startup (be_u32 payload) ≡ true
        → s.context
          ≡ check_connection crate cfg.guardian client_ip
              (extract_user_db payload).0
              (extract_user_db payload).1
              now
        → s.context.action ≢ deny
        → s.upstream.sent ≡ packet (inject_ip_startup payload client_ip)
        → s.client_in ≡ buffered stream
        → MayEnd handshake (forwarding s)

  module _ (stream : Incoming) (payload : Bytes) (client_ip : Str) (client : Outgoing) where
    abbrev handshake : Step HandshakeOutcome
    handshake = ok (session stream payload client_ip)

    abbrev context : ConnectionContext
    context =
        check_connection crate cfg.guardian client_ip (extract_user_db payload).0
          (extract_user_db payload).1 now

    start_forwarding-MayEnd :
        (w : Bool × Outgoing)
        → WritesPacket (inject_ip_startup payload client_ip) w
        → is_supported_startup (be_u32 payload) ≡ true
        → context.action ≢ deny
        → MayEnd handshake (start_forwarding stream client context w)
    start_forwarding-MayEnd (true, up) sent supported let_in =
        handed_on stream payload client_ip refl supported refl let_in sent refl
    start_forwarding-MayEnd (false, up) sent supported let_in =
        cut_off _ (a_startup stream payload client_ip refl supported let_in) sent

    open_session-MayEnd :
        (server : Connecting)
        → is_supported_startup (be_u32 payload) ≡ true
        → context.action ≢ deny
        → MayEnd handshake (
            open_session
              (connect_upstream cfg.limits server)
              stream
              client
              payload
              client_ip
              context)
    unfolding open_session connect_upstream
    open_session-MayEnd hangs supported let_in = never_connected
    open_session-MayEnd fails supported let_in = never_connected
    open_session-MayEnd (accepts after fate) supported let_in =
        elim (Bool-cases (leb cfg.limits.upstream_connect_timeout after)) [
          | inl late ↦ rw late never_connected
          | inr early ↦ rw early (
              start_forwarding-MayEnd _
                (write_packet-WritesPacket fate (inject_ip_startup payload client_ip)) supported
                let_in)
        ]

    finished_if-MayEnd : (w : Bool × Outgoing) → MayEnd handshake (finished_if w none)
    finished_if-MayEnd (true, out) = never_connected
    finished_if-MayEnd (false, out) = client_broke

    on_action-MayEnd :
        (action : Action) (server : Connecting)
        → context.action ≡ action
        → is_supported_startup (be_u32 payload) ≡ true
        → MayEnd handshake
            (on_action action cfg.limits server stream client payload client_ip context)
    unfolding on_action
    on_action-MayEnd deny server e supported =
        finished_if-MayEnd (write_all client (denied_packet client_ip))
    on_action-MayEnd allow server e supported =
        open_session-MayEnd server supported (λ d. absurd (cc (e, d)))
    on_action-MayEnd inspect server e supported =
        open_session-MayEnd server supported (λ d. absurd (cc (e, d)))

    on_startup-MayEnd :
        (server : Connecting)
        → MayEnd handshake (on_startup crate cfg now server stream client payload client_ip)
    unfolding on_startup
    on_startup-MayEnd server = elim (Bool-cases (is_supported_startup (be_u32 payload))) [
      | inl supported ↦ rw supported (on_action-MayEnd context.action server refl supported)
      | inr foreign ↦ rw foreign never_connected
    ]

  relayed-MayEnd :
      (payload : Bytes) (client_ip : Str) (client : Outgoing) (w : Bool × Outgoing)
      → WritesPacket payload w
      → MayEnd (ok (cancel payload client_ip)) (relayed client w)
  relayed-MayEnd payload client_ip client (true, up) sent = relayed_all payload client_ip refl sent
  relayed-MayEnd payload client_ip client (false, up) sent =
      cut_off payload (a_cancel client_ip refl) sent

  relay_cancel-MayEnd :
      (payload : Bytes) (client_ip : Str) (client : Outgoing) (server : Connecting)
      → MayEnd
          (ok (cancel payload client_ip))
          (relay_cancel (connect_upstream cfg.limits server) client payload)
  unfolding relay_cancel connect_upstream
  relay_cancel-MayEnd payload client_ip client hangs = never_connected
  relay_cancel-MayEnd payload client_ip client fails = never_connected
  relay_cancel-MayEnd payload client_ip client (accepts after fate) =
      elim (Bool-cases (leb cfg.limits.upstream_connect_timeout after)) [
        | inl late ↦ rw late never_connected
        | inr early ↦
            rw early
              (relayed-MayEnd payload client_ip client _ (write_packet-WritesPacket fate payload))
      ]

  on_handshake-MayEnd :
      (server : Connecting) (r : Step HandshakeOutcome × Outgoing)
      → MayEnd r.0 (on_handshake crate cfg now server r)
  unfolding on_handshake
  on_handshake-MayEnd server (timed_out, client) = never_connected
  on_handshake-MayEnd server (protocol e, client) = never_connected
  on_handshake-MayEnd server (io, client) = client_broke
  on_handshake-MayEnd server (ok (cancel payload client_ip), client) =
      relay_cancel-MayEnd payload client_ip client server
  on_handshake-MayEnd server (ok (session stream payload client_ip), client) =
      on_startup-MayEnd stream payload client_ip client server

  -- The server gets bytes only on behalf of a peer that is trusted, and only these: the packet of a
  -- CancelRequest as it was read, or the rewritten startup message of protocol 3 that Guardian does
  -- not deny, whole or cut off by a failing write. The forwarding begins only behind a whole one,
  -- with the stream that the handshake left and the context that Guardian gave. A peer that is not
  -- trusted is sent nothing.
  pub handle_client-MayEnd :
      (fuel : ℕ) (server : Connecting) (log : RejectionLog) (clock : ℕ) (socket : Incoming)
      (out : Outgoing)
      → ((is_trusted crate cfg.trusted peer_ip ≡ true)
          × MayEnd
              (perform_handshake fuel cfg.limits cfg.tls_acceptor socket out).0
              (handle_client crate fuel cfg now server log clock peer_ip socket out).0)
        ⊎ ((is_trusted crate cfg.trusted peer_ip ≡ false)
            × ((handle_client crate fuel cfg now server log clock peer_ip socket out).0
                ≡ finished out none))
  unfolding handle_client
  handle_client-MayEnd fuel server log clock socket out =
      elim (Bool-cases (is_trusted crate cfg.trusted peer_ip)) [
        | inl known ↦ rw known (
            inl (
              refl,
              on_handshake-MayEnd server
                  (perform_handshake fuel cfg.limits cfg.tls_acceptor socket out),
            ))
        | inr foreign ↦ rw foreign (inr (refl, refl))
      ]
