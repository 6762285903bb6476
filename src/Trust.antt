-- ===== src/Trust.antt =====
-- core/rust/src/trust.rs: the allowlist of peers, and the throttled log of refusals. The `cidr`
-- crate and the clock are parameters.
pub mod Allowlist
pub mod Forms
pub mod Listed
pub mod Throttle
mod Tests
use pg_prism.Prelude.{
  ℕ, ◌+◌, ◌-◌, ◌%◌, Bool, true, false, ◌||◌, List, [], ◌∷◌, Option, none, some, leb, if◌then◌else◌,
  case_option, any, is_empty, map,
}
use pg_prism.Text.{Str, codes, trim}
use pg_prism.Text.Split.{split}
use pg_prism.Net.{IpAddr, ip_from_str, to_ipv4_mapped}
use pg_prism.Net.Cidr.{CidrCrate}
use pg_prism.Limits.{Env, u64_size}

abbrev pub default_trusted_proxies : Str
default_trusted_proxies = codes "127.0.0.0/8,::1/128"

abbrev pub env_var : Str
env_var = codes "TRUSTED_PROXIES"

pub data TrustError : Type 0 where
  empty : TrustError
  bad_entry : Str → TrustError

pub data TrustResult {ℓ} (A : Type ℓ) : Type ℓ where
  ok : A → TrustResult A
  err : TrustError → TrustResult A

infixl 5 ◌>>=◌
abbrev pub ◌>>=◌ {ℓ κ} :
    {A : Type ℓ} {B : Type κ} → TrustResult A → (A → TrustResult B) → TrustResult B
ok a >>= f = f a
err e >>= f = err e

-- `spec.split(',').map(trim).filter(non-empty)`
pub keep_entries : List Str → List Str
keep_entries [] = []
keep_entries (s ∷ rest) =
    let kept = keep_entries rest in if is_empty (trim s) then kept else trim s ∷ kept

unfoldable pub entries_of : Str → List Str
unfolding keep_entries
entries_of spec = keep_entries (split b',' spec)

-- An IPv4-mapped IPv6 address in its IPv4 form, any other as it is.
unfoldable pub normalise : IpAddr → IpAddr
unfolding to_ipv4_mapped
normalise ip = case_option (to_ipv4_mapped ip) ip (λ v4. v4)

module _ (crate : CidrCrate) where
  open crate use {IpCidr, cidr_from_str, new_host, contains}

  pub record TrustedProxies : Type 0 where
    pub nets : List IpCidr
    pub spec : Str

  -- A block, or else a bare address as a host block.
  unfoldable pub parse_entry : Str → TrustResult IpCidr
  parse_entry entry =
      case_option (cidr_from_str entry)
        (case_option (ip_from_str entry) (err (bad_entry entry)) (λ ip. ok (new_host ip))) ok

  -- The loop of `parse`.
  pub parse_entries : List Str → TrustResult (List IpCidr)
  parse_entries [] = ok []
  parse_entries (entry ∷ entries) = do
    net ← parse_entry entry
    nets ← parse_entries entries
    ok (net ∷ nets)

  -- `TrustedProxies::parse`
  unfoldable pub parse : Str → TrustResult TrustedProxies
  unfolding parse_entries
  parse spec =
      if is_empty (entries_of spec)
      then err empty
      else do nets ← parse_entries (entries_of spec); ok (record { nets = nets; spec = trim spec })

  -- `TrustedProxies::from_env`
  unfoldable pub trusted_from_env : Env → TrustResult TrustedProxies
  trusted_from_env env =
      case_option (env env_var) (parse default_trusted_proxies) (λ spec. parse spec)

  unfoldable pub is_trusted : TrustedProxies → IpAddr → Bool
  is_trusted trusted peer =
      any (λ net. contains net peer || contains net (normalise peer)) trusted.nets

-- The throttle: the time of the last line, and the count of events since that gave none. Times
-- and the interval are in one unit, and `duration_since` stops at zero.
pub record RejectionLog : Type 0 where
  pub last : Option ℕ
  pub suppressed : ℕ
  pub interval : ℕ

abbrev pub new_log : ℕ → RejectionLog
new_log interval = record { last = none; suppressed = 0; interval = interval }

-- `RejectionLog::default()`, in seconds
abbrev pub default_log : RejectionLog
default_log = new_log 10

abbrev pub is_due : RejectionLog → ℕ → Bool
is_due log now = case_option log.last true (λ t. leb log.interval (now - t))

-- `should_log`, at the time `now`; the counter is of 64 bits and wraps.
unfoldable pub should_log : RejectionLog → ℕ → Option ℕ × RejectionLog
should_log log now =
    if is_due log now
    then (some log.suppressed, record log { last = some now; suppressed = 0 })
    else (none, record log { suppressed = (log.suppressed + 1) % u64_size })
