-- ===== src/Guardian/Rules/Loading.antt =====
-- The warnings of `Guardian::load` in core/rust/src/guardian.rs, and parts of rules that are skipped.
use pg_prism.Prelude.{
  Bool, true, false, not, List, [], ◌∷◌, ◌++◌, Option, none, some, ◌≡◌, refl, sym, ap, ◌∙◌, arith,
  inl, inr, case_option, any, Exists, any-Exists, Exists-any, Exists-map, Bool-cases, Option-cases,
  All,
}
use pg_prism.Text.{Str}
use pg_prism.Net.{IpAddr, is_ipv4}
use pg_prism.Net.Cidr.{CidrCrate}
use pg_prism.Guardian.Time.{hhmm, time_in_range}
use pg_prism.Guardian.Time.Shape.{IsTimeRange, time_in_range-IsTimeRange}
use pg_prism.Guardian.Rules.{
  Rule, LocalTime, names_block_of, ips_match, on_time, check_rules, Warning, never_matches,
  only_ipv4, only_ipv6, parsed_blocks, warning_for, warnings_of_rule,
}

-- The addresses that a warning says the rule cannot match.
abbrev pub excludes : Warning → IpAddr → Bool
excludes (never_matches name) a = true
excludes (only_ipv4 name) a = not (is_ipv4 a)
excludes (only_ipv6 name) a = is_ipv4 a

module _ (crate : CidrCrate) (a : IpAddr) where
  open crate use {IpCidr, cidr_from_str, contains, is_v4, family}

  -- A parsed block that holds the address.
  abbrev holds_address : IpCidr → Bool
  holds_address net = contains net a

  any-parsed_blocks :
      (ips : List Str)
      → any (names_block_of crate a) ips ≡ any holds_address (parsed_blocks crate ips)
  unfolding any parsed_blocks names_block_of
  any-parsed_blocks [] = refl
  any-parsed_blocks (s ∷ ips) = elim (Option-cases (cidr_from_str s)) [
    | inl e ↦ rw e (any-parsed_blocks ips)
    | inr (net, e) ↦ rw (e, any-parsed_blocks ips) refl
  ]

  warning_for-excludes :
      (name : Str) (nets : List IpCidr)
      → Exists (λ n. is_v4 n ≡ is_ipv4 a) nets
      → All (λ w. excludes w a ≡ false) (warning_for crate name nets)
  unfolding warning_for
  warning_for-excludes name [] e = elim e [ ]
  warning_for-excludes name (n ∷ nets) e = elim (Bool-cases (is_ipv4 a)) [
    | inl v ↦
        let has_v4 : any is_v4 (n ∷ nets) ≡ true = Exists-any is_v4 (Exists-map (λ n p. p ∙ v) e) in
        rw has_v4 (elim (Bool-cases (any (λ c. not (is_v4 c)) (n ∷ nets))) [
          | inl some_v6 ↦ rw some_v6 tt
          | inr no_v6 ↦ rw (no_v6, v) (refl, tt)
        ])
    | inr v ↦
        let has_v6 : any (λ c. not (is_v4 c)) (n ∷ nets) ≡ true =
          Exists-any (λ c. not (is_v4 c)) (Exists-map (λ n p. ap not (p ∙ v)) e) in
        rw has_v6 (elim (Bool-cases (any is_v4 (n ∷ nets))) [
          | inl some_v4 ↦ rw some_v4 tt
          | inr no_v4 ↦ rw (no_v4, v) (refl, tt)
        ])
  ]

  listed-excludes :
      (rule : Rule) (ips : Option (List Str))
      → ips_match crate ips a ≡ true
      → All
          (λ w. excludes w a ≡ false)
          (case_option ips [] (λ ips. warning_for crate rule.name (parsed_blocks crate ips)))
  unfolding ips_match
  listed-excludes rule none h = tt
  listed-excludes rule (some ips) h =
      let found =
        any-Exists holds_address (parsed_blocks crate ips) (sym (any-parsed_blocks ips) ∙ h) in
      warning_for-excludes rule.name (parsed_blocks crate ips)
        (Exists-map (λ net held. family net a held) found)

  -- The warnings at startup are right about every rule: an address that a rule matches is excluded
  -- by none of them, where "can never match" excludes all addresses, "only IPv4" those of IPv6, and
  -- "only IPv6" those of IPv4.
  pub warnings_of_rule_sound :
      (rule : Rule)
      → ips_match crate rule.ips a ≡ true
      → All (λ w. excludes w a ≡ false) (warnings_of_rule crate rule)
  warnings_of_rule_sound rule = listed-excludes rule rule.ips

malformed_range : (now range : Str) → ¬ IsTimeRange range → time_in_range now range ≡ false
malformed_range now range bad = elim (Bool-cases (time_in_range now range)) [
  | inl t ↦ absurd (bad (time_in_range-IsTimeRange now range t))
  | inr f ↦ f
]

-- A rule whose time range is not two times of day with a dash between them applies to no
-- connection at any hour: the rules decide as if it were not there, also where its action is DENY.
pub check_rules-malformed_range :
    (crate : CidrCrate) (rule : Rule) (rules : List Rule) (range : Str) (ip_addr : IpAddr)
    (user db : Str) (now : LocalTime)
    → rule.time_range ≡ some range
    → ¬ IsTimeRange range
    → check_rules crate (rule ∷ rules) ip_addr user db now
      ≡ check_rules crate rules ip_addr user db now
unfolding check_rules on_time
check_rules-malformed_range crate rule rules range ip_addr user db now e bad =
    ground (arith, malformed_range (hhmm now.hour now.minute) range bad)

-- An entry of a rule's address list that does not parse is passed over: the list matches as if the
-- entry were not there, wherever it stands.
pub ips_match-unparsed :
    (crate : CidrCrate) (earlier later : List Str) (entry : Str) (ip_addr : IpAddr)
    → crate.cidr_from_str entry ≡ none
    → ips_match crate (some (earlier ++ (entry ∷ later))) ip_addr
      ≡ ips_match crate (some (earlier ++ later)) ip_addr
unfolding ips_match any names_block_of
ips_match-unparsed crate [] later entry ip_addr e = rw e refl
ips_match-unparsed crate (s ∷ earlier) later entry ip_addr e =
    rw (ips_match-unparsed crate earlier later entry ip_addr e) refl
