-- ===== src/Guardian/Time/Circular.antt =====
-- `time_in_range` of core/rust/src/guardian.rs against minutes on a clock that wraps at midnight.
use pg_prism.Prelude.{
  ℕ, ◌+◌, ◌-◌, ◌*◌, ◌%◌, ◌<◌, Bool, true, ◌||◌, ◌&&◌, ◌∷◌, ◌++◌, ◌≡◌, ◌≢◌, arith, leb,
  if◌then◌else◌, ◌⊎◌, All, all, lt→ltb,
}
use pg_prism.Text.{Str, len, trim, str_le, as_bytes, encode_char}
use pg_prism.Text.Decimal.{is_digit, parse_unsigned-two_digits, two_digits}
use pg_prism.Text.Split.{split_once-append}
use pg_prism.Wire.{u32_size}
use pg_prism.Guardian.Time.{
  hhmm, parses_below, are_hour_and_minute, is_hhmm, between, time_in_range,
}

-- Minutes since midnight.
abbrev pub minutes : ℕ → ℕ → ℕ
minutes hour minute = hour * 60 + minute

-- Is `now` reached from `start` no later than `end` is, on a clock of 1440 minutes?
abbrev pub within_day : ℕ → ℕ → ℕ → Bool
within_day now start end = leb ((now + 1440 - start) % 1440) ((end + 1440 - start) % 1440)

-- The order of texts is the order of the times.
str_le-hhmm :
    (h m h' m' : ℕ)
    → h < 24
    → m < 60
    → h' < 24
    → m' < 60
    → str_le (hhmm h m) (hhmm h' m') ≡ leb (minutes h m) (minutes h' m')
unfolding str_le hhmm two_digits
str_le-hhmm h m h' m' a b c d = ground arith

two_digits-All : (n sep : ℕ) → n < 100 → sep < 48 ⊎ 57 < sep → All (λ c. c ≢ sep) (two_digits n)
unfolding two_digits
two_digits-All n sep h o = ground arith

len-two_digits : (n : ℕ) → n < 100 → len (two_digits n) ≡ 2
unfolding two_digits as_bytes encode_char
len-two_digits n h = ground arith

all-two_digits : (n : ℕ) → n < 100 → all is_digit (two_digits n) ≡ true
unfolding two_digits is_digit all
all-two_digits n h = ground arith

parses_below-two_digits :
    (bound n : ℕ) → n < 100 → n < bound → parses_below bound (two_digits n) ≡ true
unfolding parses_below
parses_below-two_digits bound n h lt =
    rw (parse_unsigned-two_digits u32_size n h (omega arith)) (lt→ltb n bound lt)

is_hhmm-hhmm : (h m : ℕ) → h < 24 → m < 60 → is_hhmm (hhmm h m) ≡ true
unfolding is_hhmm hhmm are_hour_and_minute
is_hhmm-hhmm h m a b =
    rw
      (split_once-append b':' (two_digits h) (two_digits m)
        (two_digits-All h b':' (omega arith) (omega arith)))
      (rw (
        len-two_digits h (omega arith),
        len-two_digits m (omega arith),
        all-two_digits h (omega arith),
        all-two_digits m (omega arith),
        parses_below-two_digits 24 h (omega arith) a,
        parses_below-two_digits 60 m (omega arith) b,
      ))

-- Plain order in both cases of the code against the wrapped distance.
wraps :
    (now start end : ℕ)
    → now < 1440
    → start < 1440
    → end < 1440
    → (if leb start end then leb start now && leb now end else leb start now || leb now end)
      ≡ within_day now start end
wraps now start end a b c = ground arith

-- A range whose sides are two times of day, blanks round them allowed, holds the present minute
-- exactly if the minute comes no later than the range's end on a clock that starts at the range's
-- start and wraps at midnight: both ends are included, and a range over midnight is one piece.
pub time_in_range-within_day :
    (h m h1 m1 h2 m2 : ℕ) (a b : Str)
    → (h < 24) × (m < 60)
    → (h1 < 24) × (m1 < 60)
    → (h2 < 24) × (m2 < 60)
    → All (λ c. c ≢ b'-') a
    → trim a ≡ hhmm h1 m1
    → trim b ≡ hhmm h2 m2
    → time_in_range (hhmm h m) (a ++ (b'-' ∷ b))
      ≡ within_day (minutes h m) (minutes h1 m1) (minutes h2 m2)
unfolding time_in_range between
time_in_range-within_day h m h1 m1 h2 m2 a b now start end free ea eb =
    rw (split_once-append b'-' a b free) (
      rw
        (
          ea,
          eb,
          is_hhmm-hhmm h1 m1 start.0 start.1,
          is_hhmm-hhmm h2 m2 end.0 end.1,
          str_le-hhmm h1 m1 h2 m2 start.0 start.1 end.0 end.1,
          str_le-hhmm h1 m1 h m start.0 start.1 now.0 now.1,
          str_le-hhmm h m h2 m2 now.0 now.1 end.0 end.1,
        )
        (wraps (minutes h m) (minutes h1 m1) (minutes h2 m2) (omega arith) (omega arith)
          (omega arith)))
