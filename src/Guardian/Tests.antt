-- ===== src/Guardian/Tests.antt =====
-- Runs of the rules, of the time ranges and of the check of statements.
use pg_prism.Prelude.{
  any, all, list_eq, true, false, [], ◌∷◌, ◌++◌, none, some, ◌≡◌, ◌≢◌, ◌↔◌, refl, arith, All,
}
use pg_prism.Text.{Str, codes, trim, as_bytes, encode_char, str_le}
use pg_prism.Text.Split.{split_once}
use pg_prism.Text.Decimal.{is_digit, parse_unsigned}
use pg_prism.Net.{IpAddr, v4, ip_from_str}
use pg_prism.Net.Cidr.Hosts.{hosts}
use pg_prism.Guardian.Time.{hhmm, is_hhmm, time_in_range}
use pg_prism.Guardian.Time.Circular.{minutes, within_day, time_in_range-within_day}
use pg_prism.Guardian.Time.Shape.{IsTimeRange, time_in_range-IsTimeRange}
use pg_prism.Guardian.Rules.{
  names_block_of, Rule, ConnectionContext, LocalTime, inspect, deny, check_rules, ips_match,
  warnings_of_rule,
}
use pg_prism.Guardian.Rules.FirstMatch.{Verdict}
use pg_prism.Guardian.Rules.Loading.{
  excludes, warnings_of_rule_sound, check_rules-malformed_range, ips_match-unparsed,
}
use pg_prism.Guardian.Query.{check_query}
use pg_prism.Guardian.Query.Verdict.{IsRefused, check_query_iff}

abbrev deny_at_night : Rule
deny_at_night = record {
  name = codes "night";
  action = deny;
  ips = some (codes "0.0.0.0/0" ∷ []);
  users = none;
  databases = none;
  time_range = some (codes "22:00-06:00");
  block_queries = none;
  block_tables = none;
}

abbrev noon : LocalTime
noon = record { hour = 12; minute = 0 }

abbrev client : IpAddr
client = v4 9 8 7 6

abbrev no_drops : ConnectionContext
no_drops = record { action = inspect; block_queries = codes "DROP" ∷ []; block_tables = [] }

check_query_iff_example :
    (check_query (codes "drop table t") no_drops ≡ false)
    ↔ IsRefused (codes "drop table t") no_drops
check_query_iff_example = check_query_iff (codes "drop table t") no_drops

time_in_range-within_day_example :
    time_in_range (hhmm 23 30) (codes "22:00 " ++ (b'-' ∷ codes " 06:00"))
    ≡ within_day (minutes 23 30) (minutes 22 0) (minutes 6 0)
unfolding hhmm trim
time_in_range-within_day_example =
    time_in_range-within_day 23 30 22 0 6 0 (codes "22:00 ") (codes " 06:00")
      (omega arith, omega arith) (omega arith, omega arith) (omega arith, omega arith)
      (
        λ e. absurd (omega arith),
        (
          λ e. absurd (omega arith),
          (
            λ e. absurd (omega arith),
            (
              λ e. absurd (omega arith),
              (λ e. absurd (omega arith), (λ e. absurd (omega arith), tt)),
            ),
          ),
        ),
      )
      refl refl

at_night : time_in_range (hhmm 23 30) (codes "22:00-06:00") ≡ true
unfolding time_in_range hhmm split_once is_hhmm trim as_bytes encode_char all is_digit
    parse_unsigned str_le
at_night = refl

time_in_range-IsTimeRange_example : IsTimeRange (codes "22:00-06:00")
time_in_range-IsTimeRange_example =
    time_in_range-IsTimeRange (hhmm 23 30) (codes "22:00-06:00") at_night

any_address : ips_match hosts deny_at_night.ips client ≡ true
unfolding ips_match any names_block_of list_eq
any_address = refl

warnings_of_rule_sound_example :
    All (λ w. excludes w client ≡ false) (warnings_of_rule hosts deny_at_night)
warnings_of_rule_sound_example = warnings_of_rule_sound hosts client deny_at_night any_address

abbrev deny_always : Rule
deny_always = record deny_at_night { time_range = some (codes "9 to 17") }

no_dash : (s a b : Str) → All (λ c. c ≢ b'-') s → ¬ (s ≡ a ++ (b'-' ∷ b))
no_dash [] [] b h e = absurd (cc e)
no_dash [] (x ∷ a) b h e = absurd (cc e)
no_dash (c ∷ s) [] b h e = h.0 (cc e)
no_dash (c ∷ s) (x ∷ a) b h e = no_dash s a b h.1 (cc e)

no_range : ¬ IsTimeRange (codes "9 to 17")
no_range (a, b, splits, free, start, end) =
    no_dash (codes "9 to 17") a b
      (
        λ e. absurd (omega arith),
        (
          λ e. absurd (omega arith),
          (
            λ e. absurd (omega arith),
            (
              λ e. absurd (omega arith),
              (
                λ e. absurd (omega arith),
                (λ e. absurd (omega arith), (λ e. absurd (omega arith), tt)),
              ),
            ),
          ),
        ),
      )
      splits

check_rules-malformed_range_example :
    check_rules hosts (deny_always ∷ []) client (codes "bob") (codes "db") noon
    ≡ check_rules hosts [] client (codes "bob") (codes "db") noon
check_rules-malformed_range_example =
    check_rules-malformed_range hosts deny_always [] (codes "9 to 17") client (codes "bob")
      (codes "db") noon refl no_range

no_block : hosts.cidr_from_str (codes "10.0.0/8") ≡ none
unfolding ip_from_str list_eq
no_block = refl

bad_entry_skipped :
    ips_match hosts (some ([] ++ (codes "10.0.0/8" ∷ codes "9.8.7.6" ∷ []))) client
    ≡ ips_match hosts (some ([] ++ (codes "9.8.7.6" ∷ []))) client
bad_entry_skipped =
    ips_match-unparsed hosts [] (codes "9.8.7.6" ∷ []) (codes "10.0.0/8") client no_block
