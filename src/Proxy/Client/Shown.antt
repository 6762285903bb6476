-- ===== src/Proxy/Client/Shown.antt =====
-- What the server has been told when `handle_client` of core/rust/src/proxy.rs begins to forward.
use mathlib.Core.Path.{subst}
use pg_prism.Prelude.{ℕ, some, ◌≡◌, ◌≢◌, inl, inr, ap}
use pg_prism.Text.{Str, Bytes}
use pg_prism.Net.{IpAddr, ip_from_str}
use pg_prism.Net.Cidr.{CidrCrate}
use pg_prism.Net.Literal.{ip_from_str-IsLiteral}
use pg_prism.Trust.{RejectionLog}
use pg_prism.Guardian.Rules.{deny, LocalTime, Guardian, check_connection}
use pg_prism.Guardian.Rules.FirstMatch.{check_connection-Verdict, Verdict, no_address, decided}
use pg_prism.Protocol.{inject_ip_startup, extract_user_db}
use pg_prism.Text.Utf8.{from_utf8_lossy}
use pg_prism.Protocol.Startup.Asked.{asked_user, asked_db}
use pg_prism.Protocol.Startup.Shown.{
  extract_user_db-server_params, ServerShows, inject_ip_startup-ServerShows,
}
use pg_prism.Protocol.Startup.Named.{IsAddressText-IsNulFree}
use pg_prism.Protocol.Startup.Identity.{extract_user_db-inject_ip_startup}
use pg_prism.Proxy.Stream.{Incoming, Outgoing}
use pg_prism.Proxy.Header.{Step}
use pg_prism.Proxy.Handshake.{HandshakeOutcome}
use pg_prism.Proxy.Handshake.Bounds.{Yields, FitsLimits, payload_of, perform_handshake-Yields}
use pg_prism.Proxy.Client.{Connecting, Session, Outcome, forwarding, ProxyConfig, handle_client}
use pg_prism.Proxy.Client.Upstream.{
  packet, MayEnd, never_connected, client_broke, relayed_all, cut_off, handed_on,
  handle_client-MayEnd,
}

-- A connection that is not denied has an address.
pub not_denied :
    (crate : CidrCrate) (guardian : Guardian) (ip user db : Str) (now : LocalTime)
    → (check_connection crate guardian ip user db now).action ≢ deny
    → (addr : IpAddr) × (ip_from_str ip ≡ some addr)
not_denied crate guardian ip user db now let_in =
    go (check_connection-Verdict crate guardian ip user db now)
  where
    go :
        Verdict crate guardian ip user db now (check_connection crate guardian ip user db now)
        → (addr : IpAddr) × (ip_from_str ip ≡ some addr)
    go (no_address e same) = absurd (let_in (cc same))
    go (decided addr e how) = (addr, e)

-- What the server is told when a session begins: the rewritten startup message is all that it has
-- been sent; the server stores the address with every parameter in it that is named exactly
-- `application_name`, and there is one; and the user and the database for which it asks, be it read
-- by the program or by the server, are those that Guardian judged, as text, where U+FFFD stands for
-- what is no UTF-8.
pub record Shows (crate : CidrCrate) (cfg : ProxyConfig crate) (now : LocalTime) (s : Session)
    : Type 0 where
  pub message : Bytes
  pub client_ip : Str
  pub user : Str
  pub db : Str
  pub sent : s.upstream.sent ≡ packet message
  pub shown : ServerShows client_ip message
  pub same : extract_user_db message ≡ (user, db)
  pub user_asked : user ≡ from_utf8_lossy (asked_user shown.params)
  pub db_asked : db ≡ from_utf8_lossy (asked_db shown.params)
  pub judged : s.context ≡ check_connection crate cfg.guardian client_ip user db now
  pub let_in : s.context.action ≢ deny

pub forwarding_inj : (s s' : Session) → forwarding s ≡ forwarding s' → s ≡ s'
forwarding_inj s s' e = cc e

module _ (crate : CidrCrate) (cfg : ProxyConfig crate) (now : LocalTime) (peer_ip : IpAddr) where
  of_MayEnd :
      (handshake : Step HandshakeOutcome) (o : Outcome) (s : Session)
      → Yields (λ h. FitsLimits cfg.limits (payload_of h)) handshake
      → MayEnd crate cfg now peer_ip handshake o
      → o ≡ forwarding s
      → Shows crate cfg now s
  of_MayEnd handshake o s fits never_connected e = absurd (cc e)
  of_MayEnd handshake o s fits client_broke e = absurd (cc e)
  of_MayEnd handshake o s fits (relayed_all payload client_ip h sent) e = absurd (cc e)
  of_MayEnd handshake o s fits (cut_off payload admitted sent) e = absurd (cc e)
  of_MayEnd handshake o s fits
        (handed_on {s = s'} stream payload client_ip h supported judged let_in sent rest) e =
      let (addr, is_address) =
        not_denied crate cfg.guardian client_ip _ _ now (rw judged at let_in) in
      let literal = ip_from_str-IsLiteral client_ip is_address in
      let (four, most) : FitsLimits cfg.limits payload = rw h at fits in
      let shows : ServerShows client_ip (inject_ip_startup payload client_ip) =
        inject_ip_startup-ServerShows payload client_ip four literal.nonempty literal.chars
          literal.short in
      let asked =
        extract_user_db-server_params payload client_ip shows.params four
          (IsAddressText-IsNulFree client_ip literal.chars) shows.reads in
      subst (Shows crate cfg now) (forwarding_inj s' s e) (record {
        message = inject_ip_startup payload client_ip;
        client_ip = client_ip;
        user = (extract_user_db payload).0;
        db = (extract_user_db payload).1;
        sent = sent;
        shown = shows;
        same =
            extract_user_db-inject_ip_startup payload client_ip four
              (IsAddressText-IsNulFree client_ip literal.chars);
        user_asked = ap (λ (x : Str × Str). x.0) asked;
        db_asked = ap (λ (x : Str × Str). x.1) asked;
        judged = judged;
        let_in = let_in;
      })

  -- Where `handle_client` begins to forward, the server has been sent one startup message and
  -- nothing else: the server that reads it as PostgreSQL documents the message finds a parameter named
  -- exactly `application_name`, and of each that it finds it stores a value that shows the whole
  -- client address, cleaned and cut off behind 63 characters; the user and database for which it
  -- asks, as that server and as `extract_user_db` reads them, are as text those for which Guardian
  -- gave the context of the session, and that is no DENY. Nothing is assumed of the client, who
  -- chooses every byte; of other parameters, `options` among them, nothing is said.
  pub handle_client-Shows :
      (fuel : ℕ) (server : Connecting) (log : RejectionLog) (clock : ℕ) (socket : Incoming)
      (out : Outgoing) (s : Session)
      → (handle_client crate fuel cfg now server log clock peer_ip socket out).0 ≡ forwarding s
      → Shows crate cfg now s
  handle_client-Shows fuel server log clock socket out s e =
      elim (handle_client-MayEnd crate cfg now peer_ip fuel server log clock socket out) [
        | inl (known, may) ↦
            of_MayEnd _ _ s (perform_handshake-Yields cfg.limits fuel cfg.tls_acceptor socket out)
              may e
        | inr (stranger, ends) ↦ absurd (cc (ends, e))
      ]
