-- ===== src/Text/Decimal.antt =====
-- `parse::<u32>`, `parse::<u64>` and two-digit printing.
use pg_prism.Prelude.{
  ℕ, ◌+◌, ◌-◌, ◌*◌, ◌/◌, ◌%◌, ◌≤◌, ◌<◌, Bool, true, [], ◌∷◌, Option, none, some, ◌≡◌, arith, ltb,
  ◌==◌, within, if◌then◌else◌,
}
use pg_prism.Text.{Str}

-- `char::is_ascii_digit`
unfoldable pub is_digit : ℕ → Bool
is_digit c = within b'0' b'9' c

-- The digits behind `acc`, as long as the value stays below `bound`.
pub digits : ℕ → ℕ → Str → Option ℕ
unfolding is_digit
digits bound acc [] = some acc
digits bound acc (c ∷ s) =
    let next = acc * 10 + (c - b'0') in
    let rest = digits bound next s in
    if is_digit c then (if ltb next bound then rest else none) else none

pub signless : ℕ → Str → Option ℕ
signless bound [] = none
signless bound (c ∷ s) = digits bound 0 (c ∷ s)

-- `s.parse()` at an unsigned type of `bound` values: an optional `+`, then digits, at least one.
unfoldable pub parse_unsigned : ℕ → Str → Option ℕ
unfolding digits signless
parse_unsigned bound [] = none
parse_unsigned bound (c ∷ s) = if c == b'+' then signless bound s else digits bound 0 (c ∷ s)

-- `format!("{:02}", n)` below 100.
unfoldable pub two_digits : ℕ → Str
two_digits n = (b'0' + n / 10) ∷ (b'0' + n % 10) ∷ []

-- Whatever is parsed fits the type.
pub digits-lt :
    (bound acc : ℕ) (s : Str) (n : ℕ) → acc < bound → digits bound acc s ≡ some n → n < bound
unfolding digits
digits-lt bound acc [] n h e = ground arith
digits-lt bound acc (c ∷ s) n h e = ground (arith, digits-lt bound (acc * 10 + (c - b'0')) s n)

pub parse_unsigned-lt :
    (bound : ℕ) (s : Str) (n : ℕ) → 0 < bound → parse_unsigned bound s ≡ some n → n < bound
unfolding parse_unsigned
parse_unsigned-lt bound [] n h e = ground arith
parse_unsigned-lt bound (c ∷ []) n h e = ground (arith, digits-lt bound 0 (c ∷ []) n)
parse_unsigned-lt bound (c ∷ d ∷ s) n h e =
    ground (arith, digits-lt bound 0 (c ∷ d ∷ s) n, digits-lt bound 0 (d ∷ s) n)

-- Two digits read back.
pub parse_unsigned-two_digits :
    (bound n : ℕ) → n < 100 → 100 ≤ bound → parse_unsigned bound (two_digits n) ≡ some n
unfolding parse_unsigned two_digits
parse_unsigned-two_digits bound n h le = ground arith

-- Two digits are the text of a number, and are read as it.
pub two_digits-of_digits :
    (bound c d : ℕ)
    → 100 ≤ bound
    → is_digit c ≡ true
    → is_digit d ≡ true
    → (n : ℕ) × (n < 100)
      × (◌≡◌ {A = Str} (c ∷ d ∷ []) (two_digits n))
      × (parse_unsigned bound (c ∷ d ∷ []) ≡ some n)
unfolding parse_unsigned two_digits
two_digits-of_digits bound c d le hc hd =
    ((c - b'0') * 10 + (d - b'0'), ground arith, ground arith, ground arith)
