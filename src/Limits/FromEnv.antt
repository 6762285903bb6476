-- ===== src/Limits/FromEnv.antt =====
-- `Limits::from_env` of core/rust/src/limits.rs against the environment.
use pg_prism.Prelude.{
  ℕ, ◌<◌, Option, none, some, ◌≡◌, ◌⊎◌, inl, inr, refl, ap, ◌∙◌, arith, ◌==◌, if◌then◌else◌,
  Option-cases,
}
use pg_prism.Text.{Str, trim}
use pg_prism.Text.Decimal.{parse_unsigned, parse_unsigned-lt}
use pg_prism.Limits.{
  Limits, default_limits, Env, SecsError, not_positive, Result, ok, err, ◌>>=◌, u64_size,
  parse_secs, secs_or, handshake_var, upstream_var, keepalive_var, limits_from_env,
}

-- A number of seconds that a Duration holds, and not zero.
abbrev pub IsTimeout : ℕ → Type 0
IsTimeout n = (0 < n) × (n < u64_size)

parse_secs-IsTimeout : (name raw : Str) (n : ℕ) → parse_secs name raw ≡ ok n → IsTimeout n
unfolding parse_secs
parse_secs-IsTimeout name raw n h = elim (Option-cases (parse_unsigned u64_size (trim raw))) [
  | inl e ↦ absurd (cc (rw e at h))
  | inr (m, e) ↦
      let lt = parse_unsigned-lt u64_size (trim raw) m (omega arith) e in
      let h' : (if m == 0 then err (not_positive name) else ok m) ≡ ok n = rw e at h in
      (ground arith, ground arith)
]

-- Where a timeout comes from: the default if the variable is not set, and else its text as a
-- decimal number.
abbrev pub ComesFrom : ℕ → Option Str → ℕ → Type 0
ComesFrom default none n = n ≡ default
ComesFrom default (some raw) n = parse_unsigned u64_size (trim raw) ≡ some n

-- One timeout, as it is read.
pub record IsRead (default : ℕ) (value : Option Str) (n : ℕ) : Type 0 where
  pub bounds : IsTimeout n
  pub origin : ComesFrom default value n

-- The text is no decimal number of 64 bits, or it is zero.
abbrev pub IsBad : Str → Type 0
IsBad raw =
    (parse_unsigned u64_size (trim raw) ≡ none) ⊎ (parse_unsigned u64_size (trim raw) ≡ some 0)

parse_secs-ok :
    (name raw : Str) (n : ℕ)
    → parse_secs name raw ≡ ok n
    → parse_unsigned u64_size (trim raw) ≡ some n
unfolding parse_secs
parse_secs-ok name raw n h = elim (Option-cases (parse_unsigned u64_size (trim raw))) [
  | inl e ↦ absurd (cc (rw e at h))
  | inr (m, e) ↦
      let h' : (if m == 0 then err (not_positive name) else ok m) ≡ ok n = rw e at h in
      let same : m ≡ n = ground arith in e ∙ ap some same
]

parse_secs-err : (name raw : Str) (e : SecsError) → parse_secs name raw ≡ err e → IsBad raw
unfolding parse_secs
parse_secs-err name raw e h = elim (Option-cases (parse_unsigned u64_size (trim raw))) [
  | inl p ↦ inl p
  | inr (m, p) ↦
      let h' : (if m == 0 then err (not_positive name) else ok m) ≡ err e = rw p at h in
      let zero : m ≡ 0 = ground arith in inr (p ∙ ap some zero)
]

-- One variable: read, or set to a bad text.
abbrev pub VarOutcome : ℕ → Option Str → Result ℕ → Type 0
VarOutcome default value (ok n) = IsRead default value n
VarOutcome default value (err e) = (raw : Str) × (value ≡ some raw) × IsBad raw

secs_or-VarOutcome :
    (default : ℕ) (env : Env) (name : Str)
    → IsTimeout default
    → VarOutcome default (env name) (secs_or default env name)
unfolding secs_or
secs_or-VarOutcome default env name d = elim (Option-cases (env name)) [
  | inl e ↦ rw e (record { bounds = d; origin = refl })
  | inr (raw, e) ↦ rw e (of_text raw (parse_secs name raw) refl)
]
  where
    of_text : (raw : Str) (r : Result ℕ) → parse_secs name raw ≡ r → VarOutcome default (some raw) r
    of_text raw (ok n) p = record {
      bounds = parse_secs-IsTimeout name raw n p;
      origin = parse_secs-ok name raw n p;
    }
    of_text raw (err e) p = (raw, refl, parse_secs-err name raw e p)

-- The limits that an environment gives.
pub record AreRead (env : Env) (l : Limits) : Type 0 where
  pub handshake : IsRead 10 (env handshake_var) l.handshake_timeout
  pub upstream : IsRead 5 (env upstream_var) l.upstream_connect_timeout
  pub keepalive : IsRead 60 (env keepalive_var) l.keepalive_time
  pub drain : l.drain_timeout ≡ 10
  pub startup_len : l.max_startup_len ≡ 10000
  pub header_len : l.max_proxy_header_len ≡ 108

-- One of the variables is set to a bad text.
abbrev pub HasBad : Env → Type 0
HasBad env =
    (name raw : Str) × ((name ≡ handshake_var) ⊎ (name ≡ upstream_var) ⊎ (name ≡ keepalive_var))
    × (env name ≡ some raw)
    × IsBad raw

abbrev pub LimitsOutcome : Env → Result Limits → Type 0
LimitsOutcome env (ok l) = AreRead env l
LimitsOutcome env (err e) = HasBad env

-- Each timeout is the default where its variable is not set, and else the number in it, which is
-- at least 1 and fits 64 bits; the other limits are the defaults. If the environment is refused,
-- then one of the variables is set to a text that is no such number.
pub limits_from_env-LimitsOutcome : (env : Env) → LimitsOutcome env (limits_from_env env)
unfolding limits_from_env
limits_from_env-LimitsOutcome env =
    go (secs_or 10 env handshake_var) (secs_or 5 env upstream_var) (secs_or 60 env keepalive_var)
      (secs_or-VarOutcome 10 env handshake_var (omega arith))
      (secs_or-VarOutcome 5 env upstream_var (omega arith))
      (secs_or-VarOutcome 60 env keepalive_var (omega arith))
  where
    go :
        (a b c : Result ℕ)
        → VarOutcome 10 (env handshake_var) a
        → VarOutcome 5 (env upstream_var) b
        → VarOutcome 60 (env keepalive_var) c
        → LimitsOutcome env (
            a >>= λ h. b >>= λ u. c >>= λ k. ok (record default_limits {
              handshake_timeout = h;
              upstream_connect_timeout = u;
              keepalive_time = k;
            }))
    go (err e) b c (raw, p, bad) y z = (handshake_var, raw, inl refl, p, bad)
    go (ok h) (err e) c x (raw, p, bad) z = (upstream_var, raw, inr (inl refl), p, bad)
    go (ok h) (ok u) (err e) x y (raw, p, bad) = (keepalive_var, raw, inr (inr refl), p, bad)
    go (ok h) (ok u) (ok k) x y z = record {
      handshake = x;
      upstream = y;
      keepalive = z;
      drain = refl;
      startup_len = refl;
      header_len = refl;
    }
