-- ===== src/Guardian/Rules.antt =====
-- The rules of core/rust/src/guardian.rs: their data, `check_connection`, and `load` with its
-- warnings. The `cidr` crate is a parameter, the time of day an argument; of `serde_yaml` only the
-- result of reading is used, which is an argument too.
pub mod FirstMatch
pub mod Loading
use pg_prism.Prelude.{
  ℕ, Bool, true, false, not, ◌||◌, ◌&&◌, List, [], ◌∷◌, ◌++◌, map, Option, none, some,
  if◌then◌else◌, case_option, any, is_empty, list_eq,
}
use pg_prism.Text.{Str, Bytes, codes, as_bytes}
use pg_prism.Net.{IpAddr, ip_from_str}
use pg_prism.Net.Cidr.{CidrCrate}
use pg_prism.Guardian.Time.{hhmm, time_in_range}

pub data Action : Type 0 where
  allow inspect deny : Action

pub record Rule : Type 0 where
  pub name : Str
  pub action : Action
  pub ips : Option (List Str)
  pub users : Option (List Str)
  pub databases : Option (List Str)
  pub time_range : Option Str
  pub block_queries : Option (List Str)
  pub block_tables : Option (List Str)

pub record GuardianConfig : Type 0 where
  pub rules : List Rule

pub record Guardian : Type 0 where
  pub rules : List Rule

pub record ConnectionContext : Type 0 where
  pub action : Action
  pub block_queries : List Bytes
  pub block_tables : List Bytes

-- `Local::now()`, of which the code reads the hour and the minute.
pub record LocalTime : Type 0 where
  pub hour : ℕ
  pub minute : ℕ

-- `list.clone().unwrap_or_default()`, as bytes.
pub block_list : Option (List Str) → List Bytes
block_list none = []
block_list (some words) = map as_bytes words

abbrev pub without_blocks : Action → ConnectionContext
without_blocks action = record { action = action; block_queries = []; block_tables = [] }

-- What a matching rule makes of the connection.
unfoldable pub context_of : Rule → ConnectionContext
unfolding block_list
context_of rule = record {
  action = rule.action;
  block_queries = block_list rule.block_queries;
  block_tables = block_list rule.block_tables;
}

-- `list.contains(&wanted)`, where an absent list is no condition.
unfoldable pub lists : Option (List Str) → Str → Bool
lists none wanted = true
lists (some words) wanted = any (list_eq wanted) words

-- The time check, where an absent range is no condition.
unfoldable pub on_time : Option Str → LocalTime → Bool
on_time none now = true
on_time (some range) now = time_in_range (hhmm now.hour now.minute) range

-- The warnings of `warn_about_unreachable_rules`, by the rule's name.
pub data Warning : Type 0 where
  never_matches only_ipv4 only_ipv6 : Str → Warning

pub data ConfigError : Type 0 where
  invalid : (path detail : Str) → ConfigError

-- `serde_yaml::from_reader` on an open file: a configuration, or an error's text.
pub data YamlResult : Type 0 where
  config_read : GuardianConfig → YamlResult
  malformed : Str → YamlResult

pub data LoadResult : Type 0 where
  loaded : Guardian → List Warning → LoadResult
  refused : ConfigError → LoadResult

module _ (crate : CidrCrate) where
  open crate use {IpCidr, cidr_from_str, contains, is_v4}

  -- Does the block that the text names hold the address?
  unfoldable pub names_block_of : IpAddr → Str → Bool
  names_block_of ip_addr cidr_str =
      case_option (cidr_from_str cidr_str) false (λ cidr. contains cidr ip_addr)

  -- The address check, where an absent list is no condition.
  unfoldable pub ips_match : Option (List Str) → IpAddr → Bool
  ips_match none ip_addr = true
  ips_match (some ips) ip_addr = any (names_block_of ip_addr) ips

  -- The loop of `check_connection`.
  unfoldable pub check_rules : List Rule → IpAddr → Str → Str → LocalTime → ConnectionContext
  check_rules [] ip_addr user db now = without_blocks inspect
  check_rules (rule ∷ rules) ip_addr user db now =
      let continue = check_rules rules ip_addr user db now in
      if not (ips_match rule.ips ip_addr)
      then continue
      else if not (lists rule.users user)
      then continue
      else if not (lists rule.databases db)
      then continue
      else if not (on_time rule.time_range now)
      then continue
      else context_of rule

  unfoldable pub check_connection : Guardian → Str → Str → Str → LocalTime → ConnectionContext
  check_connection guardian ip user db now =
      case_option (ip_from_str ip) (without_blocks deny)
        (λ ip_addr. check_rules guardian.rules ip_addr user db now)

  -- `ips.iter().filter_map(|s| s.parse().ok()).collect()`
  pub parsed_blocks : List Str → List IpCidr
  parsed_blocks [] = []
  parsed_blocks (s ∷ ips) =
      let rest = parsed_blocks ips in case_option (cidr_from_str s) rest (λ cidr. cidr ∷ rest)

  -- The warning for a rule with the parsed blocks, if there is one.
  pub warning_for : Str → List IpCidr → List Warning
  warning_for name parsed =
      let has_v4 = any is_v4 parsed in
      let has_v6 = any (λ c. not (is_v4 c)) parsed in
      if is_empty parsed
      then never_matches name ∷ []
      else if has_v4 && not has_v6
      then only_ipv4 name ∷ []
      else if has_v6 && not has_v4
      then only_ipv6 name ∷ []
      else []

  abbrev pub warnings_of_rule : Rule → List Warning
  warnings_of_rule rule = case_option rule.ips [] (λ ips. warning_for rule.name (parsed_blocks ips))

  unfoldable pub warn_about_unreachable_rules : List Rule → List Warning
  unfolding parsed_blocks warning_for
  warn_about_unreachable_rules [] = []
  warn_about_unreachable_rules (rule ∷ rules) =
      warnings_of_rule rule ++ warn_about_unreachable_rules rules

  -- What is done with an opened file.
  unfoldable pub load_opened : Str → YamlResult → LoadResult
  load_opened path (malformed detail) = refused (invalid path detail)
  load_opened path (config_read config) =
      loaded (record { rules = config.rules }) (warn_about_unreachable_rules config.rules)

  -- `Guardian::load`, on what opening and reading the file gave; `none` is a file that cannot be
  -- opened.
  unfoldable pub load : Str → Option YamlResult → LoadResult
  unfolding load_opened
  load path none = loaded (record { rules = [] }) []
  load path (some result) = load_opened path result
