-- ===== src/Proxy/Client/Framed.antt =====
-- The frame of the startup message that `handle_client` of core/rust/src/proxy.rs sends to the server.
use pg_prism.Prelude.{
  ℕ, ◌/◌, ◌%◌, ◌+◌, ◌*◌, ◌≤◌, ◌<◌, ◌∷◌, some, ◌≡◌, ap, ◌∙◌, sym, arith, inl, inr, length, Option,
  none, if◌then◌else◌, ◌==◌,
}
use pg_prism.Text.{Bytes}
use pg_prism.Wire.{as_u32, u32_size, to_be_bytes, from_be_bytes, from_be_bytes-to_be_bytes}
use pg_prism.Net.{IpAddr}
use pg_prism.Net.Cidr.{CidrCrate}
use pg_prism.Net.Literal.{ip_from_str-IsLiteral}
use pg_prism.Trust.{RejectionLog}
use pg_prism.Guardian.Rules.{LocalTime}
use pg_prism.Protocol.{inject_ip_startup}
use pg_prism.Protocol.Startup.Named.{IsAddressText-IsPrintable}
use pg_prism.Protocol.Startup.Size.{length-inject_ip_startup_le}
use pg_prism.Proxy.Stream.{Incoming, Outgoing}
use pg_prism.Proxy.Header.{Step}
use pg_prism.Proxy.Handshake.{HandshakeOutcome}
use pg_prism.Proxy.Handshake.Bounds.{Yields, FitsLimits, payload_of, perform_handshake-Yields}
use pg_prism.Proxy.Client.{Connecting, Session, Outcome, forwarding, ProxyConfig, handle_client}
use pg_prism.Proxy.Client.Upstream.{
  packet, MayEnd, never_connected, client_broke, relayed_all, cut_off, handed_on,
  handle_client-MayEnd,
}
use pg_prism.Proxy.Client.Shown.{not_denied, forwarding_inj}

-- What the server reads as the startup message: four bytes of length, which count themselves, and as
-- many more bytes as they say, with nothing behind them.
abbrev pub read_startup : Bytes → Option Bytes
read_startup (a ∷ b ∷ c ∷ d ∷ rest) =
    if from_be_bytes a b c d == length rest + 4 then some rest else none
read_startup _ = none

read_startup-packet :
    (message : Bytes) → length message + 4 < u32_size → read_startup (packet message) ≡ some message
unfolding to_be_bytes
read_startup-packet message small =
    let n = as_u32 (length message + 4) in
    let read : from_be_bytes (n / 16777216 % 256) (n / 65536 % 256) (n / 256 % 256) (n % 256)
        ≡ length message + 4 =
      omega (arith, from_be_bytes-to_be_bytes n (omega arith), small) in
    ground (arith, read)

module _ (crate : CidrCrate) (cfg : ProxyConfig crate) (now : LocalTime) (peer_ip : IpAddr) where
  of_MayEnd :
      (handshake : Step HandshakeOutcome) (o : Outcome) (s : Session)
      → cfg.limits.max_startup_len ≤ 10000
      → Yields (λ h. FitsLimits cfg.limits (payload_of h)) handshake
      → MayEnd crate cfg now peer_ip handshake o
      → o ≡ forwarding s
      → (message : Bytes) × (read_startup s.upstream.sent ≡ some message)
  of_MayEnd handshake o s small fits never_connected e = absurd (cc e)
  of_MayEnd handshake o s small fits client_broke e = absurd (cc e)
  of_MayEnd handshake o s small fits (relayed_all payload client_ip h sent) e = absurd (cc e)
  of_MayEnd handshake o s small fits (cut_off payload admitted sent) e = absurd (cc e)
  of_MayEnd handshake o s small fits
        (handed_on {s = s'} stream payload client_ip h supported judged let_in sent rest) e =
      let (addr, is_address) =
        not_denied crate cfg.guardian client_ip _ _ now (rw judged at let_in) in
      let literal = ip_from_str-IsLiteral client_ip is_address in
      let (four, most) : FitsLimits cfg.limits payload = rw h at fits in
      let message = inject_ip_startup payload client_ip in
      let size : length message ≤ 33 * length payload =
        length-inject_ip_startup_le client_ip (IsAddressText-IsPrintable client_ip literal.chars)
          payload four in
      (
        message,
        ap (λ s. read_startup s.upstream.sent) (sym (forwarding_inj s' s e))
            ∙ ap read_startup sent
            ∙ read_startup-packet message (omega (arith, size, most, small)),
      )

  -- Under a startup limit of at most 10000 bytes, as all limits that are read have it: where
  -- `handle_client` begins to forward, the server has been sent exactly one whole startup message.
  -- The length in front of it, which counts itself, did not wrap round in 32 bits however much the
  -- injection has added.
  pub handle_client-framed :
      (fuel : ℕ) (server : Connecting) (log : RejectionLog) (clock : ℕ) (socket : Incoming)
      (out : Outgoing) (s : Session)
      → cfg.limits.max_startup_len ≤ 10000
      → (handle_client crate fuel cfg now server log clock peer_ip socket out).0 ≡ forwarding s
      → (message : Bytes) × (read_startup s.upstream.sent ≡ some message)
  handle_client-framed fuel server log clock socket out s small e =
      elim (handle_client-MayEnd crate cfg now peer_ip fuel server log clock socket out) [
        | inl (known, may) ↦
            of_MayEnd _ _ s small
              (perform_handshake-Yields cfg.limits fuel cfg.tls_acceptor socket out) may e
        | inr (stranger, ends) ↦ absurd (cc (ends, e))
      ]
