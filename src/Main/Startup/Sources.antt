-- ===== src/Main/Startup/Sources.antt =====
-- Where core/rust/src/main.rs takes the allowlist and the rules from.
use mathlib.Core.Path.{subst}
use pg_prism.Prelude.{List, [], Option, none, some, Option-cases, ◌≡◌, ◌⊎◌, inl, inr, refl}
use pg_prism.Text.{Str, codes}
use pg_prism.Net.Cidr.{CidrCrate}
use pg_prism.Limits.{Env}
use pg_prism.Trust.{
  TrustResult, TrustedProxies, env_var, default_trusted_proxies, parse, trusted_from_env,
}
use pg_prism.Guardian.Rules.{
  GuardianConfig, Guardian, ConfigError, invalid, YamlResult, config_read, malformed, LoadResult,
  Warning, loaded, refused, load_opened, load,
}

abbrev pub rules_path : Str
rules_path = codes "guardian.yaml"

module _ (crate : CidrCrate) (env : Env) (file : Option YamlResult) where
  -- The default, where the variable cannot be had, or else what it says.
  abbrev pub TrustFrom : TrustResult (TrustedProxies crate) → Type 0
  TrustFrom r =
      ((env env_var ≡ none) × (parse crate default_trusted_proxies ≡ r))
      ⊎ ((spec : Str) × (env env_var ≡ some spec) × (parse crate spec ≡ r))

  -- None, where the file cannot be opened, or else those in the file.
  abbrev pub RulesFrom : Guardian → Type 0
  RulesFrom guardian =
      ((file ≡ none) × (guardian.rules ≡ []))
      ⊎ ((config : GuardianConfig) × (file ≡ some (config_read config))
          × (guardian.rules ≡ config.rules))

  -- The file was opened, and does not parse.
  abbrev pub IsMalformed : ConfigError → Type 0
  IsMalformed e =
      (detail : Str) × (file ≡ some (malformed detail)) × (e ≡ invalid rules_path detail)

  pub trusted_from_env-TrustFrom :
      (r : TrustResult (TrustedProxies crate)) → trusted_from_env crate env ≡ r → TrustFrom r
  unfolding trusted_from_env
  trusted_from_env-TrustFrom r e = elim (Option-cases (env env_var)) [
    | inl unset ↦ inl (unset, (rw unset at e))
    | inr (spec, set) ↦ inr (spec, set, (rw set at e))
  ]

  abbrev Loads : LoadResult → Type 0
  Loads (loaded guardian warnings) = RulesFrom guardian
  Loads (refused e) = IsMalformed e

  load-Loads : (opened : Option YamlResult) → file ≡ opened → Loads (load crate rules_path opened)
  unfolding load load_opened
  load-Loads none e = inl (e, refl)
  load-Loads (some (malformed detail)) e = (detail, e, refl)
  load-Loads (some (config_read config)) e = inr (config, e, refl)

  pub load-RulesFrom :
      (guardian : Guardian) (warnings : List Warning)
      → load crate rules_path file ≡ loaded guardian warnings
      → RulesFrom guardian
  load-RulesFrom guardian warnings e = subst Loads e (load-Loads file refl)

  pub load-IsMalformed : (x : ConfigError) → load crate rules_path file ≡ refused x → IsMalformed x
  load-IsMalformed x e = subst Loads e (load-Loads file refl)
