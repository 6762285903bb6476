-- ===== src/Guardian/Time.antt =====
-- `time_in_range` and `is_hhmm` of core/rust/src/guardian.rs.
pub mod Circular
pub mod Shape
use pg_prism.Prelude.{
  ℕ, Bool, true, false, not, ◌||◌, ◌&&◌, [], ◌∷◌, ◌++◌, Option, none, some, ltb, ◌==◌,
  if◌then◌else◌, case_option, all,
}
use pg_prism.Text.{Str, len, trim, str_le}
use pg_prism.Text.Decimal.{is_digit, parse_unsigned, two_digits}
use pg_prism.Text.Split.{split_once}
use pg_prism.Wire.{u32_size}

-- `format!("{:02}:{:02}", hour, minute)`
unfoldable pub hhmm : ℕ → ℕ → Str
unfolding two_digits
hhmm hour minute = two_digits hour ++ (b':' ∷ two_digits minute)

-- `s.parse::<u32>().map(|v| v < bound).unwrap_or(false)`
pub parses_below : ℕ → Str → Bool
parses_below bound s = case_option (parse_unsigned u32_size s) false (λ v. ltb v bound)

-- The tests on the two sides of the colon.
pub are_hour_and_minute : Str → Str → Bool
unfolding parses_below
are_hour_and_minute h m =
    len h == 2
    && len m == 2
    && all is_digit h
    && all is_digit m
    && parses_below 24 h
    && parses_below 60 m

unfoldable pub is_hhmm : Str → Bool
unfolding are_hour_and_minute
is_hhmm s = case_option (split_once b':' s) false (λ r. are_hour_and_minute r.0 r.1)

-- Between two trimmed times of day.
pub between : Str → Str → Str → Bool
between now start end =
    if not (is_hhmm start) || not (is_hhmm end)
    then false
    else if str_le start end
    then str_le start now && str_le now end
    else str_le start now || str_le now end

unfoldable pub time_in_range : Str → Str → Bool
unfolding between
time_in_range now range =
    case_option (split_once b'-' range) false (λ r. between now (trim r.0) (trim r.1))
