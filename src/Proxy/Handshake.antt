-- ===== src/Proxy/Handshake.antt =====
-- `checked_startup_len` and `perform_handshake` of core/rust/src/proxy.rs. Of `native_tls` the
-- acceptor is used: it is a parameter, which turns what arrives on the socket into what arrives
-- inside the TLS session, or fails.
pub mod Bounds
pub mod Fuel
pub mod Complete
pub mod Asking
pub mod Answered
use pg_prism.Prelude.{
  ℕ, zero, suc, ◌+◌, ◌-◌, Bool, true, false, List, [], ◌∷◌, ◌++◌, Option, none, some, ltb, ◌==◌,
  if◌then◌else◌, case_option, length,
}
use pg_prism.Text.{Str, Bytes}
use pg_prism.Wire.{from_be_bytes}
use pg_prism.Limits.{Limits, min_startup_packet_length}
use pg_prism.Protocol.{ssl_request, gssenc_request, cancel_request}
use pg_prism.Proxy.Stream.{
  Incoming, BufReader, buffered, into_inner, read_exact, Outgoing, write_all,
}
use pg_prism.Proxy.Header.{
  ProtocolError, packet_too_short, packet_too_long, Step, ok, protocol, io, timed_out, ◌>>=◌,
  of_read, read_proxy_v1_header,
}

-- `acceptor.accept(socket)`
abbrev pub TlsAcceptor : Type 0
TlsAcceptor = Incoming → Option Incoming

-- `HandshakeOutcome`
pub data HandshakeOutcome : Type 0 where
  session : (stream : Incoming) (payload : Bytes) (client_ip : Str) → HandshakeOutcome
  cancel : (payload : Bytes) (client_ip : Str) → HandshakeOutcome

unfoldable pub checked_startup_len : ℕ → Limits → Step ℕ
checked_startup_len msg_len limits =
    if ltb msg_len min_startup_packet_length
    then protocol (packet_too_short msg_len)
    else if ltb limits.max_startup_len msg_len
    then protocol (packet_too_long msg_len limits.max_startup_len)
    else ok (msg_len - 4)

-- `u32::from_be_bytes` of the first four bytes.
abbrev pub be_u32 : Bytes → ℕ
be_u32 (a ∷ b ∷ c ∷ d ∷ _) = from_be_bytes a b c d
be_u32 _ = 0

-- A length prefix, checked, and as many bytes of payload.
unfoldable pub read_packet : Limits → BufReader → Step (Bytes × BufReader)
unfolding checked_startup_len
read_packet limits reader = of_read (read_exact reader 4) >>= λ prefix.
    checked_startup_len (be_u32 prefix.0) limits >>= λ payload_len.
    of_read (read_exact prefix.1 payload_len)

-- What the code of a packet asks for.
pub data Request : Type 0 where
  wants_ssl wants_cancel wants_gssenc wants_session : Request

unfoldable pub request_of : ℕ → Request
request_of code =
    if code == ssl_request
    then wants_ssl
    else if code == cancel_request
    then wants_cancel
    else if code == gssenc_request
    then wants_gssenc
    else wants_session

-- The arms of the `match` on the code, in its order.
abbrev pub by_request {ℓ} : {A : Type ℓ} → Request → A → A → A → A → A
by_request wants_ssl a b c d = a
by_request wants_cancel a b c d = b
by_request wants_gssenc a b c d = c
by_request wants_session a b c d = d

-- A step, and what has been sent by its end.
abbrev pub Sends {ℓ} : Type ℓ → Type ℓ
Sends A = Step A × Outgoing

-- `write_all(..).await?`, and what follows a write that succeeds.
abbrev pub after_write {ℓ} : {A : Type ℓ} → Bool × Outgoing → (Outgoing → Sends A) → Sends A
after_write (true, out) f = f out
after_write (false, out) f = (io, out)

abbrev pub and_then {ℓ κ} : {A : Type ℓ} {B : Type κ} → Step A → Outgoing → (A → Sends B) → Sends B
and_then (ok a) out f = f a
and_then (protocol e) out f = (protocol e, out)
and_then io out f = (io, out)
and_then timed_out out f = (timed_out, out)

-- The TLS handshake and the startup message inside the session.
unfoldable pub read_inside_tls :
    Limits → TlsAcceptor → Str → Incoming → Outgoing → Sends HandshakeOutcome
unfolding read_packet
read_inside_tls limits acceptor client_ip socket out =
    case_option (acceptor socket) (io, out)
      (λ tls_stream.
        and_then (read_packet limits (buffered tls_stream)) out
          (λ r. (ok (session (into_inner r.1) r.0 client_ip), out)))

-- The loop of `perform_handshake`. Each round takes eight bytes off the stream at least, so fuel
-- above the number of bytes that arrive is enough; with none the handshake counts as unfinished.
pub negotiate :
    ℕ → Limits → Option TlsAcceptor → Str → BufReader → Outgoing → Sends HandshakeOutcome
unfolding request_of
negotiate zero limits acceptor client_ip reader out = (timed_out, out)
negotiate (suc fuel) limits acceptor client_ip reader out =
    and_then (read_packet limits reader) out (λ r.
      let refuse =
        after_write (write_all out (b'N' ∷ []))
          (λ out'. negotiate fuel limits acceptor client_ip (buffered (into_inner r.1)) out') in
      by_request (request_of (be_u32 r.0))
        (case_option acceptor refuse (λ tls.
          after_write (write_all out (b'S' ∷ []))
            (λ out'. read_inside_tls limits tls client_ip (into_inner r.1) out')))
        (ok (cancel r.0 client_ip), out) refuse (ok (session (into_inner r.1) r.0 client_ip), out))

unfoldable pub perform_handshake :
    ℕ → Limits → Option TlsAcceptor → Incoming → Outgoing → Sends HandshakeOutcome
unfolding negotiate
perform_handshake fuel limits acceptor client_socket out =
    and_then (read_proxy_v1_header limits.max_proxy_header_len (buffered client_socket)) out
      (λ r. negotiate fuel limits acceptor r.0 r.1 out)
