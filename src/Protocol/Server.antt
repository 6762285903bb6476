-- ===== src/Protocol/Server.antt =====
-- How PostgreSQL stores an `application_name`, as its documentation has it since version 14 and as the
-- comments of core/rust/src/protocol.rs put it; and what `stored_len_of` makes of that.
use pg_prism.Prelude.{
  ℕ, ◌+◌, ◌-◌, ◌/◌, ◌%◌, ◌≤◌, ◌<◌, [], ◌∷◌, ◌++◌, ◌≡◌, refl, sym, ap, ◌∙◌, arith, ltb, within,
  if◌then◌else◌, length, length-append, take, All, append_assoc,
}
use pg_prism.Text.{Str, Bytes, as_bytes}
use pg_prism.Protocol.{stored_len, stored_len_sum, stored_len_of}

abbrev hex_digit : ℕ → ℕ
hex_digit n = if ltb n 10 then b'0' + n else (b'a' + n) - 10

-- A byte outside printable ASCII becomes `\xNN`.
abbrev escaped : ℕ → Bytes
escaped b =
    if within 0x20 0x7E b
    then b ∷ []
    else b'\\' ∷ b'x' ∷ hex_digit (b / 16) ∷ hex_digit (b % 16) ∷ []

pub pg_clean_ascii : Bytes → Bytes
pg_clean_ascii [] = []
pg_clean_ascii (b ∷ bs) = escaped b ++ pg_clean_ascii bs

-- The value that the server stores: cleaned, and then cut off behind its 63rd character.
abbrev pub server_stores : Bytes → Bytes
server_stores value = take 63 (pg_clean_ascii value)

-- How many characters a text would take, were it not cut off.
abbrev pub cleaned_len : Str → ℕ
cleaned_len s = length (pg_clean_ascii (as_bytes s))

pub pg_clean_ascii-append :
    (a b : Bytes) → pg_clean_ascii (a ++ b) ≡ pg_clean_ascii a ++ pg_clean_ascii b
unfolding pg_clean_ascii
pg_clean_ascii-append [] b = refl
pg_clean_ascii-append (x ∷ a) b =
    ap (λ (rest : Bytes). escaped x ++ rest) (pg_clean_ascii-append a b)
    ∙ sym (append_assoc (escaped x) (pg_clean_ascii a) (pg_clean_ascii b))

-- Printable bytes are stored as they are.
pub pg_clean_ascii_printable :
    (s : Bytes) → All (λ c. (0x20 ≤ c) × (c < 0x7F)) s → pg_clean_ascii s ≡ s
unfolding pg_clean_ascii
pg_clean_ascii_printable [] h = refl
pg_clean_ascii_printable (c ∷ s) ((lo, hi), h) =
    ground (arith, lo, hi, pg_clean_ascii_printable s h)

stored_len_lem : (b : ℕ) → stored_len b ≡ length (escaped b)
unfolding stored_len
stored_len_lem b = ground arith

stored_len_sum_lem : (bs : Bytes) → stored_len_sum bs ≡ length (pg_clean_ascii bs)
unfolding stored_len_sum pg_clean_ascii
stored_len_sum_lem [] = refl
stored_len_sum_lem (b ∷ bs) =
    omega (
      arith,
      stored_len_lem b,
      stored_len_sum_lem bs,
      length-append (escaped b) (pg_clean_ascii bs),
    )

-- The program counts what the server makes of a text.
pub stored_len_of_lem : (s : Str) → stored_len_of s ≡ cleaned_len s
unfolding stored_len_of
stored_len_of_lem s = stored_len_sum_lem (as_bytes s)
