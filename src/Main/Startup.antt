-- ===== src/Main/Startup.antt =====
-- What core/rust/src/main.rs does before it accepts: the configuration, in its order, the loading of
-- the certificates, and the binding of the listener. The reading of the rules file is an argument,
-- and so is which addresses can be bound.
pub mod Sources
pub mod Fatal
use pg_prism.Prelude.{
  Bool, true, false, ◌||◌, ◌&&◌, List, [], ◌∷◌, ◌++◌, Option, none, some, if◌then◌else◌,
  case_option, ◌==◌,
}
use pg_prism.Text.{Str, codes}
use pg_prism.Net.Cidr.{CidrCrate}
use pg_prism.Limits.{Env, SecsError, Result, Limits, limits_from_env}
use pg_prism.Trust.{TrustError, TrustResult, TrustedProxies, trusted_from_env}
use pg_prism.Guardian.Rules.{Guardian, ConfigError, YamlResult, LoadResult, loaded, refused, load}
use pg_prism.Proxy.Handshake.{TlsAcceptor}
use pg_prism.Proxy.Client.{ProxyConfig}
use pg_prism.Tls.{TlsResult, Machine, TlsTools, load_tls_acceptor}

-- `env::var(name).unwrap_or_else(|_| default)`
abbrev pub var_or : Str → Env → Str → Str
var_or default env name = case_option (env name) default (λ v. v)

-- `value.to_lowercase() == "true"`: of all characters only these have the four as lower case.
abbrev pub is_true : Str → Bool
is_true (t ∷ r ∷ u ∷ e ∷ []) =
    (t == b't' || t == b'T')
    && (r == b'r' || r == b'R')
    && (u == b'u' || u == b'U')
    && (e == b'e' || e == b'E')
is_true _ = false

abbrev pub ssl_enabled : Env → Bool
ssl_enabled env = is_true (var_or (codes "true") env (codes "SSL_ENABLED"))

-- An acceptor that cannot be loaded is none: the proxy goes on without.
abbrev pub or_disabled : TlsResult TlsAcceptor × Machine → Option TlsAcceptor × Machine
or_disabled (TlsResult.ok acc, machine) = (some acc, machine)
or_disabled (TlsResult.err e, machine) = (none, machine)

-- `load_tls_acceptor()` is asked only if SSL is enabled.
abbrev pub tls_acceptor_of : TlsTools → Bool → Machine → Option TlsAcceptor × Machine
tls_acceptor_of tools true machine = or_disabled (load_tls_acceptor tools machine)
tls_acceptor_of tools false machine = (none, machine)

-- `addr`, on which it listens, and `pg_addr`.
abbrev pub listen_addr : Env → Str
listen_addr env =
    var_or (codes "0.0.0.0") env (codes "LISTEN_HOST")
    ++ (b':' ∷ var_or (codes "5433") env (codes "LISTEN_PORT"))

abbrev pub upstream_addr : Env → Str
upstream_addr env =
    var_or (codes "localhost") env (codes "PG_HOST")
    ++ (b':' ∷ var_or (codes "5432") env (codes "PG_PORT"))

module _ (crate : CidrCrate) where
  -- The process ends with an error, or goes on to accept.
  pub data Start : Type 0 where
    bad_trust : TrustError → Start
    bad_limits : SecsError → Start
    bad_rules : ConfigError → Start
    bad_bind : Str → Start
    serves : (listen upstream : Str) → ProxyConfig crate → Start

  module _ (tools : TlsTools) (can_bind : Str → Bool) (env : Env) where
    abbrev pub with_acceptor :
        TrustedProxies crate → Limits → Guardian → Option TlsAcceptor × Machine → Start × Machine
    with_acceptor trusted limits guardian (tls_acceptor, machine) = (
      if can_bind (listen_addr env)
          then serves (listen_addr env) (upstream_addr env) (record {
            guardian = guardian;
            tls_acceptor = tls_acceptor;
            trusted = trusted;
            limits = limits;
          })
          else bad_bind (listen_addr env),
      machine,
    )

    abbrev pub with_rules : Machine → TrustedProxies crate → Limits → LoadResult → Start × Machine
    with_rules machine trusted limits (refused e) = (bad_rules e, machine)
    with_rules machine trusted limits (loaded guardian warnings) =
        with_acceptor trusted limits guardian (tls_acceptor_of tools (ssl_enabled env) machine)

    abbrev pub with_limits :
        Option YamlResult → Machine → TrustedProxies crate → Result Limits → Start × Machine
    with_limits file machine trusted (Result.err e) = (bad_limits e, machine)
    with_limits file machine trusted (Result.ok limits) =
        with_rules machine trusted limits (load crate (codes "guardian.yaml") file)

    abbrev pub with_trust :
        Option YamlResult → Machine → TrustResult (TrustedProxies crate) → Start × Machine
    with_trust file machine (TrustResult.err e) = (bad_trust e, machine)
    with_trust file machine (TrustResult.ok trusted) =
        with_limits file machine trusted (limits_from_env env)

    -- `main` up to the accepting, `file` being what opening and reading the rules gave, on the files
    -- of the working directory.
    unfoldable pub start : Option YamlResult → Machine → Start × Machine
    start file machine = with_trust file machine (trusted_from_env crate env)
