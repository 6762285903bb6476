-- ===== src/Guardian/Time/Shape.antt =====
-- The texts that `is_hhmm` and `time_in_range` of core/rust/src/guardian.rs take.
use pg_prism.Prelude.{
  ℕ, ◌+◌, ◌≤◌, ◌<◌, true, [], ◌∷◌, ◌++◌, ◌≡◌, ◌≢◌, refl, arith, Bool-cases, Option-cases, inl, inr,
  All, all, length, length-append,
}
use pg_prism.Text.{Str, len, trim, as_bytes, encode_char}
use pg_prism.Text.Decimal.{is_digit, two_digits, two_digits-of_digits}
use pg_prism.Text.Split.{split_once, split_once-eq-some}
use pg_prism.Wire.{u32_size}
use pg_prism.Guardian.Time.{
  hhmm, parses_below, are_hour_and_minute, is_hhmm, between, time_in_range,
}

length-encode_char : (c : ℕ) → 1 ≤ length (encode_char c)
unfolding encode_char
length-encode_char c = ground arith

encode_digit : (c : ℕ) → is_digit c ≡ true → length (encode_char c) ≡ 1
unfolding encode_char is_digit
encode_digit c h = ground arith

len-cons : (c : ℕ) (s : Str) → len (c ∷ s) ≡ length (encode_char c) + len s
unfolding as_bytes
len-cons c s = length-append (encode_char c) (as_bytes s)

len-nil : len [] ≡ 0
unfolding as_bytes
len-nil = refl

-- Two digits of a number below the bound.
abbrev IsTwoDigits : ℕ → Str → Type 0
IsTwoDigits bound s = (n : ℕ) × (n < bound) × (s ≡ two_digits n)

two_bytes :
    (bound : ℕ) (s : Str)
    → len s ≡ 2
    → all is_digit s ≡ true
    → parses_below bound s ≡ true
    → IsTwoDigits bound s
unfolding all parses_below
two_bytes bound [] two h p = absurd (omega (arith, two, len-nil))
two_bytes bound (c ∷ []) two h p = absurd (ground (arith, len-cons c [], len-nil, encode_digit c))
two_bytes bound (c ∷ d ∷ []) two h p =
    let (n, small, text, value) =
      two_digits-of_digits u32_size c d (omega arith) (ground arith) (ground arith) in
    (n, ground (arith), text)
two_bytes bound (c ∷ d ∷ e ∷ s) two h p = absurd (
    omega (
      arith,
      two,
      len-cons c (d ∷ e ∷ s),
      len-cons d (e ∷ s),
      len-cons e s,
      length-encode_char c,
      length-encode_char d,
      length-encode_char e,
    ))

-- A time of day between 00:00 and 23:59.
abbrev pub IsTimeOfDay : Str → Type 0
IsTimeOfDay s = (h m : ℕ) × (h < 24) × (m < 60) × (s ≡ hhmm h m)

sides : (h m : Str) → are_hour_and_minute h m ≡ true → IsTwoDigits 24 h × IsTwoDigits 60 m
unfolding are_hour_and_minute
sides h m t = (
  two_bytes 24 h (ground arith) (ground arith) (ground arith),
  two_bytes 60 m (ground arith) (ground arith) (ground arith),
)

pub is_hhmm-IsTimeOfDay : (s : Str) → is_hhmm s ≡ true → IsTimeOfDay s
unfolding is_hhmm hhmm
is_hhmm-IsTimeOfDay s t = elim (Option-cases (split_once b':' s)) [
  | inl e ↦ absurd (cc (rw e at t))
  | inr ((a, b), e) ↦
      let (splits, free) = split_once-eq-some b':' s a b e in
      let ((h, h_lt, a_is), (m, m_lt, b_is)) = sides a b (rw e at t) in
      (h, m, h_lt, m_lt, rw (splits, a_is, b_is) refl)
]

-- Two times of day, blanks round them allowed, and a dash between them.
abbrev pub IsTimeRange : Str → Type 0
IsTimeRange range =
    (a b : Str) × (range ≡ a ++ (b'-' ∷ b))
    × All (λ c. c ≢ b'-') a
    × IsTimeOfDay (trim a)
    × IsTimeOfDay (trim b)

between-IsTimeOfDay :
    (now start end : Str) → between now start end ≡ true → IsTimeOfDay start × IsTimeOfDay end
unfolding between
between-IsTimeOfDay now start end t = elim (Bool-cases (is_hhmm start)) [
  | inr no_start ↦ absurd (cc (rw no_start at t))
  | inl start_ok ↦ elim (Bool-cases (is_hhmm end)) [
    | inr no_end ↦ absurd (cc (rw (start_ok, no_end) at t))
    | inl end_ok ↦ (is_hhmm-IsTimeOfDay start start_ok, is_hhmm-IsTimeOfDay end end_ok)
  ]
]

-- Only a range of times of day holds any time.
pub time_in_range-IsTimeRange :
    (now range : Str) → time_in_range now range ≡ true → IsTimeRange range
unfolding time_in_range
time_in_range-IsTimeRange now range t = elim (Option-cases (split_once b'-' range)) [
  | inl e ↦ absurd (cc (rw e at t))
  | inr ((a, b), e) ↦
      let (splits, free) = split_once-eq-some b'-' range a b e in
      let (start, end) = between-IsTimeOfDay now (trim a) (trim b) (rw e at t) in
      (a, b, splits, free, start, end)
]
