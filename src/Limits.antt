-- ===== src/Limits.antt =====
-- core/rust/src/limits.rs: the bounds on what a client controls, and the timeouts from the
-- environment. A `Duration` is its number of seconds.
pub mod FromEnv
mod Tests
use pg_prism.Prelude.{ℕ, ◌^◌, [], ◌∷◌, Option, none, some, ◌==◌, if◌then◌else◌, case_option}
use pg_prism.Text.{Str, codes, trim}
use pg_prism.Text.Decimal.{parse_unsigned}

abbrev pub max_startup_packet_length : ℕ
max_startup_packet_length = 10000

abbrev pub min_startup_packet_length : ℕ
min_startup_packet_length = 8

abbrev pub max_proxy_v1_header_len : ℕ
max_proxy_v1_header_len = 108

abbrev pub keepalive_interval : ℕ
keepalive_interval = 10

abbrev pub keepalive_retries : ℕ
keepalive_retries = 6

pub record Limits : Type 0 where
  pub handshake_timeout : ℕ
  pub upstream_connect_timeout : ℕ
  pub drain_timeout : ℕ
  pub keepalive_time : ℕ
  pub max_startup_len : ℕ
  pub max_proxy_header_len : ℕ

-- `Limits::default()`
abbrev pub default_limits : Limits
default_limits = record {
  handshake_timeout = 10;
  upstream_connect_timeout = 5;
  drain_timeout = 10;
  keepalive_time = 60;
  max_startup_len = max_startup_packet_length;
  max_proxy_header_len = max_proxy_v1_header_len;
}

-- The environment: `std::env::var(name)`, where `none` is an error.
abbrev pub Env : Type 0
Env = Str → Option Str

-- Why a number of seconds is refused: the variable's name, and its text.
pub data SecsError : Type 0 where
  not_whole : (name raw : Str) → SecsError
  not_positive : (name : Str) → SecsError

pub data Result {ℓ} (A : Type ℓ) : Type ℓ where
  ok : A → Result A
  err : SecsError → Result A

infixl 5 ◌>>=◌
abbrev pub ◌>>=◌ {ℓ κ} : {A : Type ℓ} {B : Type κ} → Result A → (A → Result B) → Result B
ok a >>= f = f a
err e >>= f = err e

abbrev pub u64_size : ℕ
u64_size = 18446744073709551616

unfoldable pub parse_secs : Str → Str → Result ℕ
parse_secs name raw =
    case_option (parse_unsigned u64_size (trim raw)) (err (not_whole name raw))
      (λ n. if n == 0 then err (not_positive name) else ok n)

-- The variable's seconds, or the default where it is not set.
pub secs_or : ℕ → Env → Str → Result ℕ
secs_or default env name = case_option (env name) (ok default) (λ v. parse_secs name v)

abbrev pub handshake_var : Str
handshake_var = codes "HANDSHAKE_TIMEOUT_SECS"

abbrev pub upstream_var : Str
upstream_var = codes "UPSTREAM_CONNECT_TIMEOUT_SECS"

abbrev pub keepalive_var : Str
keepalive_var = codes "TCP_KEEPALIVE_SECS"

-- `Limits::from_env()`
unfoldable pub limits_from_env : Env → Result Limits
unfolding secs_or
limits_from_env env = do
  handshake ← secs_or default_limits.handshake_timeout env handshake_var
  upstream ← secs_or default_limits.upstream_connect_timeout env upstream_var
  keepalive ← secs_or default_limits.keepalive_time env keepalive_var
  ok (record default_limits {
    handshake_timeout = handshake;
    upstream_connect_timeout = upstream;
    keepalive_time = keepalive;
  })
