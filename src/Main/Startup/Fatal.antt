-- ===== src/Main/Startup/Fatal.antt =====
-- How core/rust/src/main.rs starts, on every branch, and the configuration with which it serves.
use mathlib.Core.Path.{subst}
use pg_prism.Prelude.{
  Bool, true, false, Bool-cases, List, Option, none, some, ◌≡◌, ◌⊎◌, inl, inr, refl,
}
use pg_prism.Text.{Str, codes}
use pg_prism.Net.Cidr.{CidrCrate}
use pg_prism.Limits.{Env, Result, Limits, limits_from_env}
use pg_prism.Trust.{TrustResult, TrustedProxies, trusted_from_env}
use pg_prism.Guardian.Rules.{Guardian, YamlResult, LoadResult, Warning, loaded, refused, load}
use pg_prism.Proxy.Handshake.{TlsAcceptor}
use pg_prism.Proxy.Client.{ProxyConfig}
use pg_prism.Tls.{TlsError, TlsResult, Machine, TlsTools, load_tls_acceptor}
use pg_prism.Main.Startup.Sources.{
  TrustFrom, RulesFrom, IsMalformed, trusted_from_env-TrustFrom, load-RulesFrom, load-IsMalformed,
}
use pg_prism.Main.Startup.{
  Start, bad_trust, bad_limits, bad_rules, bad_bind, serves, with_acceptor, with_rules, with_limits,
  with_trust, start, ssl_enabled, or_disabled, tls_acceptor_of, listen_addr, upstream_addr,
}

module _ (crate : CidrCrate) (tools : TlsTools) (can_bind : Str → Bool) (env : Env)
    (file : Option YamlResult) (before : Machine) where
  -- Where TLS comes from: it is disabled and nothing was run, or the loading gave it or failed.
  abbrev pub TlsFrom : Option TlsAcceptor × Machine → Type 0
  TlsFrom (none, after) =
      ((ssl_enabled env ≡ false) × (after ≡ before))
      ⊎ ((ssl_enabled env ≡ true)
          × ((e : TlsError) × (load_tls_acceptor tools before ≡ (TlsResult.err e, after))))
  TlsFrom (some acceptor, after) =
      (ssl_enabled env ≡ true) × (load_tls_acceptor tools before ≡ (TlsResult.ok acceptor, after))

  -- Where each part of a configuration comes from.
  pub record Configured (cfg : ProxyConfig crate) (after : Machine) : Type 0 where
    pub trusted : trusted_from_env crate env ≡ TrustResult.ok cfg.trusted
    pub trusted_from : TrustFrom crate env file (TrustResult.ok cfg.trusted)
    pub limits : limits_from_env env ≡ Result.ok cfg.limits
    pub warnings : List Warning
    pub rules : load crate (codes "guardian.yaml") file ≡ loaded cfg.guardian warnings
    pub rules_from : RulesFrom crate env file cfg.guardian
    pub tls : TlsFrom (cfg.tls_acceptor, after)

  -- What each way to start says of the configuration, and of the files and commands.
  abbrev pub Explained : Start crate × Machine → Type 0
  Explained (bad_trust e, after) =
      (trusted_from_env crate env ≡ TrustResult.err e)
      × TrustFrom crate env file (TrustResult.err e)
      × (after ≡ before)
  Explained (bad_limits e, after) =
      ((trusted : TrustedProxies crate) × (trusted_from_env crate env ≡ TrustResult.ok trusted))
      × (limits_from_env env ≡ Result.err e)
      × (after ≡ before)
  Explained (bad_rules e, after) =
      ((trusted : TrustedProxies crate) × (trusted_from_env crate env ≡ TrustResult.ok trusted))
      × ((limits : Limits) × (limits_from_env env ≡ Result.ok limits))
      × (load crate (codes "guardian.yaml") file ≡ refused e)
      × IsMalformed crate env file e
      × (after ≡ before)
  Explained (bad_bind addr, after) =
      ((cfg : ProxyConfig crate) × Configured cfg after)
      × (addr ≡ listen_addr env)
      × (can_bind addr ≡ false)
  Explained (serves listen upstream cfg, after) =
      Configured cfg after
      × (listen ≡ listen_addr env)
      × (upstream ≡ upstream_addr env)
      × (can_bind listen ≡ true)

  loaded-TlsFrom :
      (x : TlsResult TlsAcceptor × Machine)
      → ssl_enabled env ≡ true
      → load_tls_acceptor tools before ≡ x
      → TlsFrom (or_disabled x)
  loaded-TlsFrom (TlsResult.ok acc, after) on e = (on, e)
  loaded-TlsFrom (TlsResult.err x, after) on e = inr (on, (x, e))

  acceptor-TlsFrom :
      (enabled : Bool) → ssl_enabled env ≡ enabled → TlsFrom (tls_acceptor_of tools enabled before)
  acceptor-TlsFrom true on = loaded-TlsFrom _ on refl
  acceptor-TlsFrom false off = inl (off, refl)

  acceptor-Explained :
      (trusted : TrustedProxies crate) (limits : Limits) (guardian : Guardian)
      (warnings : List Warning) (acceptor : Option TlsAcceptor × Machine)
      → trusted_from_env crate env ≡ TrustResult.ok trusted
      → limits_from_env env ≡ Result.ok limits
      → load crate (codes "guardian.yaml") file ≡ loaded guardian warnings
      → TlsFrom acceptor
      → Explained (with_acceptor crate tools can_bind env trusted limits guardian acceptor)
  acceptor-Explained trusted limits guardian warnings (acceptor, after) t l r from =
      elim (Bool-cases (can_bind (listen_addr env))) [
        | inl bound ↦ rw bound (configured, refl, refl, bound)
        | inr taken ↦ rw taken ((_, configured), refl, taken)
      ]
    where
      configured :
          Configured
            (record {
              guardian = guardian;
              tls_acceptor = acceptor;
              trusted = trusted;
              limits = limits;
            })
            after
      configured = record {
        trusted = t;
        trusted_from = trusted_from_env-TrustFrom crate env file _ t;
        limits = l;
        warnings = warnings;
        rules = r;
        rules_from = load-RulesFrom crate env file guardian warnings r;
        tls = from;
      }

  rules-Explained :
      (trusted : TrustedProxies crate) (limits : Limits) (r : LoadResult)
      → trusted_from_env crate env ≡ TrustResult.ok trusted
      → limits_from_env env ≡ Result.ok limits
      → load crate (codes "guardian.yaml") file ≡ r
      → Explained (with_rules crate tools can_bind env before trusted limits r)
  rules-Explained trusted limits (refused e) t l r =
      ((trusted, t), (limits, l), r, load-IsMalformed crate env file e r, refl)
  rules-Explained trusted limits (loaded guardian warnings) t l r =
      acceptor-Explained trusted limits guardian warnings _ t l r (acceptor-TlsFrom _ refl)

  limits-Explained :
      (trusted : TrustedProxies crate) (r : Result Limits)
      → trusted_from_env crate env ≡ TrustResult.ok trusted
      → limits_from_env env ≡ r
      → Explained (with_limits crate tools can_bind env file before trusted r)
  limits-Explained trusted (Result.err e) t l = ((trusted, t), l, refl)
  limits-Explained trusted (Result.ok limits) t l = rules-Explained trusted limits _ t l refl

  trust-Explained :
      (r : TrustResult (TrustedProxies crate))
      → trusted_from_env crate env ≡ r
      → Explained (with_trust crate tools can_bind env file before r)
  trust-Explained (TrustResult.err e) t = (t, trusted_from_env-TrustFrom crate env file _ t, refl)
  trust-Explained (TrustResult.ok trusted) t = limits-Explained trusted _ t refl

  -- On every branch of the startup: it ends on an allowlist that cannot be parsed, on a timeout that is
  -- refused, or on rules that were opened and cannot be parsed, the first of them in this order, before
  -- the certificates are looked at; it ends on a listener that cannot be bound; and else it serves on
  -- the address that was bound. The allowlist is that of its variable, or the default where the variable
  -- is not set or is no Unicode; the rules are those of the file, or none where it cannot be opened; and
  -- TLS is offered exactly if it is enabled and its acceptor could be loaded, no command being run where
  -- it is disabled.
  pub start-Explained : Explained (start crate tools can_bind env file before)
  unfolding start
  start-Explained = trust-Explained _ refl

  -- Where the proxy serves, the allowlist, the limits and the rules were read without an error: one that
  -- is there and malformed is never replaced by a default.
  pub start-Configured :
      (listen upstream : Str) (cfg : ProxyConfig crate) (after : Machine)
      → start crate tools can_bind env file before ≡ (serves listen upstream cfg, after)
      → Configured cfg after
  start-Configured listen upstream cfg after e = (subst Explained e start-Explained).0
