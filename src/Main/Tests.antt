-- ===== src/Main/Tests.antt =====
-- Runs of the accept loop and of the startup.
use pg_prism.Text.{Bytes, codes, trim}
use pg_prism.Tls.{readable, Machine, TlsTools, p12_path, load_tls_acceptor, ensure_ssl_certificates}
use pg_prism.Text.Split.{split}
use pg_prism.Net.{v4, ip_from_str}
use pg_prism.Net.Cidr.Hosts.{hosts, host}
use pg_prism.Limits.{Env, default_limits, limits_from_env}
use pg_prism.Trust.{trusted_from_env, parse, entries_of, parse_entry}
use pg_prism.Guardian.Rules.{load}
use pg_prism.Proxy.Client.{ProxyConfig}
use pg_prism.Main.Startup.{serves, start}
use pg_prism.Main.Startup.Fatal.{Configured, Explained, start-Configured, start-Explained}
use pg_prism.Prelude.{
  true, if◌then◌else◌, list_eq, refl, ℕ, List, [], ◌∷◌, Option, none, some, ◌≡◌, All, replicate,
}
use pg_prism.Main.{accept_loop}
use pg_prism.Main.Accept.{
  spawned, accepted, IsShortRound, doublings, accept_loop-serves, accept_loop-errors,
}

-- An error between two sockets.
abbrev results : List (Option ℕ)
results = some 1 ∷ none ∷ some 2 ∷ []

accept_loop-serves_example :
    (spawned (accept_loop 0 results) ≡ accepted results) × All IsShortRound (accept_loop 0 results)
accept_loop-serves_example = accept_loop-serves results

nine_errors : accept_loop {A = ℕ} 0 (replicate 9 none) ≡ doublings 0 9
nine_errors = accept_loop-errors 9

-- Only the allowlist is set, and there is no rules file.
abbrev quiet_env : Env
quiet_env name = if list_eq name (codes "TRUSTED_PROXIES") then some (codes "127.0.0.1") else none

abbrev served : ProxyConfig hosts
served = record {
  guardian = record { rules = [] };
  tls_acceptor = some (λ socket. some socket);
  trusted = record { nets = host (v4 127 0 0 1) ∷ []; spec = codes "127.0.0.1" };
  limits = default_limits;
}

-- An archive that is taken at its word.
abbrev tools : TlsTools
tools = record {
  openssl = λ args files. (none, files);
  Identity = Bytes;
  from_pkcs12 = λ bytes password. some bytes;
  build = λ identity. some (λ socket. some socket);
}

-- Nothing but the archive is there, SSL being enabled where no variable says otherwise.
abbrev keyed : Machine
keyed = record {
  files = λ name. if list_eq name p12_path then some (readable (1 ∷ [])) else none;
  ran = [];
}

start-Explained_example :
    Explained hosts tools
      (λ addr. true)
      quiet_env
      none
      keyed
      (start hosts tools (λ addr. true) quiet_env none keyed)
start-Explained_example = start-Explained hosts tools (λ addr. true) quiet_env none keyed

starts :
    start hosts tools (λ addr. true) quiet_env none keyed
    ≡ (serves (codes "0.0.0.0:5433") (codes "localhost:5432") served, keyed)
unfolding start trusted_from_env parse entries_of split trim parse_entry list_eq ip_from_str
    limits_from_env load load_tls_acceptor ensure_ssl_certificates
starts = refl

quiet_config : Configured hosts tools (λ addr. true) quiet_env none keyed served keyed
quiet_config =
    start-Configured hosts tools (λ addr. true) quiet_env none keyed (codes "0.0.0.0:5433")
      (codes "localhost:5432") served keyed starts
