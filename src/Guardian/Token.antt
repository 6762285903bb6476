-- ===== src/Guardian/Token.antt =====
-- `is_identifier_byte` and `contains_token_ignore_ascii_case` of core/rust/src/guardian.rs.
pub mod Matches
use pg_prism.Prelude.{
  ℕ, zero, suc, ◌+◌, ◌-◌, Bool, true, false, not, ◌||◌, ◌&&◌, List, [], ◌∷◌, ltb, leb, ◌==◌, within,
  if◌then◌else◌, is_empty, length, take, drop,
}
use pg_prism.Text.{Bytes}

-- `b.is_ascii_alphanumeric()`
is_ascii_alphanumeric : ℕ → Bool
is_ascii_alphanumeric b = within b'a' b'z' b || within b'A' b'Z' b || within b'0' b'9' b

unfoldable pub is_identifier_byte : ℕ → Bool
unfolding is_ascii_alphanumeric
is_identifier_byte b = is_ascii_alphanumeric b || b == b'_' || b == b'$' || leb 0x80 b

-- `b.to_ascii_lowercase()`
unfoldable pub to_ascii_lowercase : ℕ → ℕ
to_ascii_lowercase b = if within b'A' b'Z' b then b + 32 else b

-- `a.eq_ignore_ascii_case(b)`
unfoldable pub eq_ignore_ascii_case : Bytes → Bytes → Bool
unfolding to_ascii_lowercase
eq_ignore_ascii_case [] [] = true
eq_ignore_ascii_case (x ∷ xs) (y ∷ ys) =
    to_ascii_lowercase x == to_ascii_lowercase y && eq_ignore_ascii_case xs ys
eq_ignore_ascii_case _ _ = false

-- `bytes[i]`, at an index that the caller has checked.
abbrev pub byte_at : Bytes → ℕ → ℕ
byte_at [] i = 0
byte_at (b ∷ bs) zero = b
byte_at (b ∷ bs) (suc i) = byte_at bs i

-- The body of the loop: is there a whole token at `start`?
pub token_at : Bytes → Bytes → ℕ → Bool
unfolding eq_ignore_ascii_case is_identifier_byte
token_at haystack needle start =
    let end = start + length needle in
    let before_is_word = ltb 0 start && is_identifier_byte (byte_at haystack (start - 1)) in
    let after_is_word = ltb end (length haystack) && is_identifier_byte (byte_at haystack end) in
    if not (eq_ignore_ascii_case (take (length needle) (drop start haystack)) needle)
    then false
    else not before_is_word && not after_is_word

-- The loop, with the rounds that are left.
pub scan : ℕ → Bytes → Bytes → ℕ → Bool
scan zero haystack needle start = false
scan (suc rounds) haystack needle start =
    let rest = scan rounds haystack needle (start + 1) in
    if token_at haystack needle start then true else rest

unfoldable pub contains_token_ignore_ascii_case : Bytes → Bytes → Bool
unfolding scan token_at
contains_token_ignore_ascii_case haystack needle =
    if is_empty needle || ltb (length haystack) (length needle)
    then false
    else scan (length haystack - length needle + 1) haystack needle 0
