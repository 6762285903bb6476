-- ===== src/Guardian/Rules/FirstMatch.antt =====
-- `check_connection` of core/rust/src/guardian.rs against the rules in their order.
use pg_prism.Prelude.{
  Bool, true, false, ◌&&◌, List, [], ◌∷◌, ◌++◌, Option, none, some, ◌≡◌, refl, sym, ap, arith, ◌↔◌,
  inl, inr, if◌then◌else◌, Exists, any-Exists, Exists-any, Exists-map, Bool-cases, Option-cases,
  list_eq, list_eq_iff, All,
}
use pg_prism.Text.{Str}
use pg_prism.Net.{IpAddr, ip_from_str}
use pg_prism.Net.Cidr.{CidrCrate}
use pg_prism.Guardian.Time.{hhmm, time_in_range}
use pg_prism.Guardian.Rules.{
  inspect, deny, Rule, Guardian, LocalTime, ConnectionContext, without_blocks, context_of, lists,
  on_time, names_block_of, ips_match, check_rules, check_connection,
}

-- An absent list or range is no condition.
abbrev pub AbsentOr {ℓ} : {A : Type ℓ} → Option A → (A → Type 0) → Type 0
AbsentOr none P = Unit
AbsentOr (some a) P = P a

module _ (crate : CidrCrate) where
  open crate use {IpCidr, cidr_from_str, contains}

  -- The text is a block that holds the address.
  abbrev pub IsBlockOf : IpAddr → Str → Type 0
  IsBlockOf ip_addr s =
      (net : IpCidr) × (cidr_from_str s ≡ some net) × (contains net ip_addr ≡ true)

  -- The conditions of a rule.
  pub record Applies (rule : Rule) (ip_addr : IpAddr) (user db : Str) (now : LocalTime)
      : Type 0 where
    pub address : AbsentOr rule.ips (Exists (IsBlockOf ip_addr))
    pub by_user : AbsentOr rule.users (Exists (λ u. u ≡ user))
    pub by_database : AbsentOr rule.databases (Exists (λ d. d ≡ db))
    pub by_time :
        AbsentOr rule.time_range (λ range. time_in_range (hhmm now.hour now.minute) range ≡ true)

  module _ (ip_addr : IpAddr) where
    names_block_of_iff : (s : Str) → (names_block_of crate ip_addr s ≡ true) ↔ IsBlockOf ip_addr s
    unfolding names_block_of
    names_block_of_iff s = elim (Option-cases (cidr_from_str s)) [
      | inl e ↦ rw e (λ h. absurd (cc h), λ b. absurd (cc (b.1)))
      | inr (net, e) ↦ rw e (λ h. (net, refl, h), λ b. same net b)
    ]
      where
        same :
            (net : IpCidr)
            → (n : IpCidr) × (some net ≡ some n) × (contains n ip_addr ≡ true)
            → contains net ip_addr ≡ true
        same net (n, e, h) = ground arith

    ips_match_iff :
        (ips : Option (List Str))
        → (ips_match crate ips ip_addr ≡ true) ↔ AbsentOr ips (Exists (IsBlockOf ip_addr))
    unfolding ips_match
    ips_match_iff none = (λ h. tt, λ h. refl)
    ips_match_iff (some ips) = (
      λ h.
          Exists-map (λ s. (names_block_of_iff s).0)
            (any-Exists (names_block_of crate ip_addr) ips h),
      λ e. Exists-any (names_block_of crate ip_addr) (Exists-map (λ s. (names_block_of_iff s).1) e),
    )

lists_iff :
    (words : Option (List Str)) (wanted : Str)
    → (lists words wanted ≡ true) ↔ AbsentOr words (Exists (λ w. w ≡ wanted))
unfolding lists
lists_iff none wanted = (λ h. tt, λ h. refl)
lists_iff (some words) wanted = (
  λ h. Exists-map (λ w e. sym ((list_eq_iff wanted w).0 e)) (any-Exists (list_eq wanted) words h),
  λ e. Exists-any (list_eq wanted) (Exists-map (λ w p. (list_eq_iff wanted w).1 (sym p)) e),
)

on_time_iff :
    (range : Option Str) (now : LocalTime)
    → (on_time range now ≡ true)
      ↔ AbsentOr range (λ r. time_in_range (hhmm now.hour now.minute) r ≡ true)
unfolding on_time
on_time_iff none now = (λ h. tt, λ h. refl)
on_time_iff (some range) now = (λ h. h, λ h. h)

module _ (crate : CidrCrate) (ip_addr : IpAddr) (user db : Str) (now : LocalTime) where
  -- All four tests at once.
  abbrev holds : Rule → Bool
  holds rule =
      ips_match crate rule.ips ip_addr
      && lists rule.users user
      && lists rule.databases db
      && on_time rule.time_range now

  holds-Applies : (rule : Rule) → holds rule ≡ true → Applies crate rule ip_addr user db now
  holds-Applies rule h = record {
    address = (ips_match_iff crate ip_addr rule.ips).0 (ground arith);
    by_user = (lists_iff rule.users user).0 (ground arith);
    by_database = (lists_iff rule.databases db).0 (ground arith);
    by_time = (on_time_iff rule.time_range now).0 (ground arith);
  }

  Applies-holds : (rule : Rule) → Applies crate rule ip_addr user db now → holds rule ≡ true
  Applies-holds rule a = rw (
    (ips_match_iff crate ip_addr rule.ips).1 a.address,
    (lists_iff rule.users user).1 a.by_user,
    (lists_iff rule.databases db).1 a.by_database,
    (on_time_iff rule.time_range now).1 a.by_time,
  )

  check_rules-holds :
      (rule : Rule) (rules : List Rule)
      → check_rules crate (rule ∷ rules) ip_addr user db now
        ≡ (if holds rule then context_of rule else check_rules crate rules ip_addr user db now)
  unfolding check_rules
  check_rules-holds rule rules = ground arith

  -- How the rules are decided: by the first that applies, or by none.
  pub data Decided (context : ConnectionContext) (rules : List Rule) : Type 0 where
    by_rule :
        (earlier : List Rule) (rule : Rule) (later : List Rule)
        → rules ≡ earlier ++ (rule ∷ later)
        → All (λ r. ¬ Applies crate r ip_addr user db now) earlier
        → Applies crate rule ip_addr user db now
        → context ≡ context_of rule
        → Decided context rules
    by_default :
        All (λ r. ¬ Applies crate r ip_addr user db now) rules
        → context ≡ without_blocks inspect
        → Decided context rules

  not-Applies : (rule : Rule) → holds rule ≡ false → ¬ Applies crate rule ip_addr user db now
  not-Applies rule h a = cc (Applies-holds rule a)

  Decided-skip :
      {context : ConnectionContext} (rule : Rule) {rules : List Rule}
      → ¬ Applies crate rule ip_addr user db now
      → Decided context rules
      → Decided context (rule ∷ rules)
  Decided-skip rule refuted (by_rule earlier r later e all a c) =
      by_rule (rule ∷ earlier) r later (ap (◌∷◌ rule) e) (refuted, all) a c
  Decided-skip rule refuted (by_default all c) = by_default (refuted, all) c

  check_rules-Decided :
      (rules : List Rule) → Decided (check_rules crate rules ip_addr user db now) rules
  check_rules-Decided [] = by_default tt (unfold check_rules in refl)
  check_rules-Decided (rule ∷ rules) =
      rw (check_rules-holds rule rules) (elim (Bool-cases (holds rule)) [
        | inl e ↦ rw e (by_rule [] rule rules refl tt (holds-Applies rule e) refl)
        | inr e ↦ rw e (Decided-skip rule (not-Applies rule e) (check_rules-Decided rules))
      ])

-- The verdict on a connection.
pub data Verdict (crate : CidrCrate) (guardian : Guardian) (ip user db : Str) (now : LocalTime)
    (context : ConnectionContext) : Type 0 where
  no_address :
      ip_from_str ip ≡ none
      → context ≡ without_blocks deny
      → Verdict crate guardian ip user db now context
  decided :
      (ip_addr : IpAddr)
      → ip_from_str ip ≡ some ip_addr
      → Decided crate ip_addr user db now context guardian.rules
      → Verdict crate guardian ip user db now context

pub check_connection-Verdict :
    (crate : CidrCrate) (guardian : Guardian) (ip user db : Str) (now : LocalTime)
    → Verdict crate guardian ip user db now (check_connection crate guardian ip user db now)
unfolding check_connection
check_connection-Verdict crate guardian ip user db now = elim (Option-cases (ip_from_str ip)) [
  | inl e ↦ no_address e (rw e refl)
  | inr (a, e) ↦ decided a e (rw e (check_rules-Decided crate a user db now guardian.rules))
]
