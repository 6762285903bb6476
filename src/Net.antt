-- ===== src/Net.antt =====
-- What the program uses of `std::net`: addresses, their parser, and IPv4-mapped addresses.
pub mod Literal
pub mod Cidr
use pg_prism.Prelude.{
  ℕ, zero, suc, ◌≤◌, ◌<◌, All, ◌+◌, ◌-◌, ◌*◌, ◌/◌, ◌%◌, Bool, true, false, not, ◌||◌, ◌&&◌, List,
  [], ◌∷◌, ◌++◌, Option, none, some, ltb, leb, ◌==◌, within, if◌then◌else◌, case_option, is_empty,
  length, replicate,
}
use pg_prism.Text.{Str}

-- An IPv4 address by its octets, and an IPv6 address by its segments.
pub data IpAddr : Type 0 where
  v4 : (a b c d : ℕ) → IpAddr
  v6 : (a b c d e f g h : ℕ) → IpAddr

-- `Ipv6Addr::to_ipv4_mapped` on `::ffff:a.b.c.d`, and what is left of any other address.
unfoldable pub to_ipv4_mapped : IpAddr → Option IpAddr
to_ipv4_mapped (v4 a b c d) = none
to_ipv4_mapped (v6 a b c d e f g h) =
    if a == 0 && b == 0 && c == 0 && d == 0 && e == 0 && f == 0xFFFF
    then some (v4 (g / 256) (g % 256) (h / 256) (h % 256))
    else none

-- The characters of an address literal: those of digits, `a` to `f`, `:` and `.` among them, and
-- neither a blank nor a dash.
abbrev pub IsAddressText : Str → Type 0
IsAddressText = All (λ c. (0x2E ≤ c) × (c < 0x67))

-- A parser takes a text to a value and the rest of the text.
abbrev pub Parser {ℓ} : Type ℓ → Type ℓ
Parser A = Str → Option (A × Str)

infixl 5 ◌>>=◌ ◌>>◌
abbrev pub ◌>>=◌ {ℓ κ} : {A : Type ℓ} {B : Type κ} → Parser A → (A → Parser B) → Parser B
◌>>=◌ p f s = case_option (p s) none (λ r. f r.0 r.1)

abbrev pub ◌>>◌ {ℓ κ} : {A : Type ℓ} {B : Type κ} → Parser A → Parser B → Parser B
p >> q = p >>= λ _. q

-- `char::to_digit(radix)`, for 10 and 16.
unfoldable pub to_digit : ℕ → ℕ → Option ℕ
to_digit radix c =
    if within b'0' b'9' c
    then some (c - b'0')
    else if radix == 16 && within b'a' b'f' c
    then some (c - b'a' + 10)
    else if radix == 16 && within b'A' b'F' c
    then some (c - b'A' + 10)
    else none

-- What a run of digits gave.
pub record Digits : Type 0 where
  pub value : ℕ
  pub count : ℕ
  pub rest : Str

-- The digits at the front, behind those that gave `value` and `count`.
pub read_digits : ℕ → ℕ → ℕ → Str → Digits
read_digits radix value count [] = record { value = value; count = count; rest = [] }
read_digits radix value count (c ∷ s) =
    case_option (to_digit radix c) (record { value = value; count = count; rest = c ∷ s })
      (λ d. read_digits radix (value * radix + d) (count + 1) s)

abbrev pub leading_zero : Str → Bool
leading_zero [] = false
leading_zero (c ∷ s) = c == b'0'

-- `read_number(radix, Some(max_digits), allow_zero_prefix)` into a type of `bound` values.
unfoldable pub read_number : ℕ → ℕ → Bool → ℕ → Parser ℕ
unfolding read_digits
read_number radix max_digits allow_zero_prefix bound s =
    let r = read_digits radix 0 0 s in
    if ltb max_digits r.count || r.count == 0
    then none
    else if not allow_zero_prefix && leading_zero s && ltb 1 r.count
    then none
    else if ltb r.value bound
    then some (r.value, r.rest)
    else none

-- `read_given_char`
unfoldable pub read_char : ℕ → Parser (Unit {0})
read_char wanted [] = none
read_char wanted (c ∷ s) = if c == wanted then some (tt, s) else none

-- `read_separator`: the separator stands in front of every part but the first.
abbrev pub separated {ℓ} : {A : Type ℓ} → ℕ → ℕ → Parser A → Parser A
separated sep zero p = p
separated sep (suc index) p = read_char sep >>= λ _. p

abbrev pub read_octet : Parser ℕ
read_octet = read_number 10 3 false 256

unfoldable pub read_ipv4_addr : Parser IpAddr
read_ipv4_addr = do
  a ← read_octet
  b ← separated b'.' 1 read_octet
  c ← separated b'.' 2 read_octet
  d ← separated b'.' 3 read_octet
  λ s. some (v4 a b c d, s)

-- The two segments that an embedded IPv4 address stands for.
abbrev pub segments_of : IpAddr → List ℕ
segments_of (v4 a b c d) = (a * 256 + b) ∷ (c * 256 + d) ∷ []
segments_of (v6 a b c d e f g h) = []

-- What `read_groups` gave: the segments, whether an embedded IPv4 address ended them, the rest.
pub record Groups : Type 0 where
  pub groups : List ℕ
  pub ipv4 : Bool
  pub rest : Str

abbrev pub more_group : ℕ → Groups → Groups
more_group g r = record r { groups = g ∷ r.groups }

-- `read_groups` from index `i` on, with `left` slots left; at least two are needed for an
-- embedded IPv4 address.
pub read_groups : ℕ → ℕ → Str → Groups
read_groups zero i s = record { groups = []; ipv4 = false; rest = s }
read_groups (suc left) i s =
    case_option (if ltb 0 left then separated b':' i read_ipv4_addr s else none)
      (case_option (separated b':' i (read_number 16 4 true 0x10000) s)
        (record { groups = []; ipv4 = false; rest = s })
        (λ r. more_group r.0 (read_groups left (i + 1) r.1)))
      (λ r. record { groups = segments_of r.0; ipv4 = true; rest = r.1 })

abbrev pub of_segments : List ℕ → Option IpAddr
of_segments (a ∷ b ∷ c ∷ d ∷ e ∷ f ∷ g ∷ h ∷ []) = some (v6 a b c d e f g h)
of_segments _ = none

abbrev pub with_rest : Str → Option IpAddr → Option (IpAddr × Str)
with_rest s none = none
with_rest s (some a) = some (a, s)

-- Behind `::`: the segments in front of it, and up to `limit` behind it.
pub read_tail : List ℕ → ℕ → Parser IpAddr
unfolding read_groups
read_tail head limit s =
    let tail = read_groups limit 0 s in
    with_rest tail.rest
      (of_segments (head ++ (replicate (8 - length head - length tail.groups) 0 ++ tail.groups)))

-- What follows the segments at the front.
pub after_head : Groups → Option (IpAddr × Str)
unfolding read_tail read_char
after_head head =
    let behind = do
      read_char b':'
      read_char b':'
      read_tail head.groups (8 - (length head.groups + 1))
    in if length head.groups == 8
      then with_rest head.rest (of_segments head.groups)
      else if head.ipv4
      then none
      else behind head.rest

unfoldable pub read_ipv6_addr : Parser IpAddr
unfolding read_groups after_head
read_ipv6_addr s = after_head (read_groups 8 0 s)

-- `IpAddr::from_str`: all of the text is one address.
abbrev pub whole : Option (IpAddr × Str) → Option IpAddr
whole (some (a, [])) = some a
whole _ = none

abbrev pub or_else : Option (IpAddr × Str) → Option (IpAddr × Str) → Option (IpAddr × Str)
or_else (some r) _ = some r
or_else none r = r

unfoldable pub ip_from_str : Str → Option IpAddr
unfolding read_ipv4_addr read_ipv6_addr read_number to_digit
ip_from_str s = whole (or_else (read_ipv4_addr s) (read_ipv6_addr s))

abbrev pub is_ipv4 : IpAddr → Bool
is_ipv4 (v4 a b c d) = true
is_ipv4 (v6 a b c d e f g h) = false
