-- ===== src/Protocol/AppName.antt =====
-- `format_application_name` of core/rust/src/protocol.rs and the length that the server stores.
use pg_prism.Prelude.{
  ℕ, zero, suc, take, ◌∙◌, ◌+◌, ◌-◌, ◌≤◌, ◌<◌, false, [], ◌∷◌, ◌++◌, ◌≡◌, refl, sym, ap, arith, ltb,
  leb, Bool-cases, inl, inr, length, All, append_assoc,
}
use pg_prism.Text.{Str, Bytes, encode_char, as_bytes, len}
use pg_prism.Protocol.Server.{
  pg_clean_ascii, server_stores, cleaned_len, pg_clean_ascii-append, pg_clean_ascii_printable,
  stored_len_of_lem,
}
use pg_prism.Protocol.{
  stored_len, stored_len_sum, stored_len_of, truncate_from, truncate_to_stored_budget, suffix_of,
  format_application_name,
}

-- Printable ASCII, which the server stores as it is.
abbrev pub IsPrintable : Str → Type 0
IsPrintable = All (λ c. (0x20 ≤ c) × (c < 0x7F))

pub as_bytes-append : (s t : Str) → as_bytes (s ++ t) ≡ as_bytes s ++ as_bytes t
unfolding as_bytes
as_bytes-append [] t = refl
as_bytes-append (c ∷ s) t = rw (as_bytes-append s t) (sym (append_assoc (encode_char c) _ _))

stored_len_sum-append :
    (a b : Bytes) → stored_len_sum (a ++ b) ≡ stored_len_sum a + stored_len_sum b
unfolding stored_len_sum
stored_len_sum-append [] b = omega arith
stored_len_sum-append (x ∷ a) b = omega (arith, stored_len_sum-append a b)

pub stored_len_of-append : (s t : Str) → stored_len_of (s ++ t) ≡ stored_len_of s + stored_len_of t
unfolding stored_len_of
stored_len_of-append s t =
    rw (as_bytes-append s t) (stored_len_sum-append (as_bytes s) (as_bytes t))

stored_len_of-cons :
    (c : ℕ) (s : Str) → stored_len_of (c ∷ s) ≡ stored_len_of (c ∷ []) + stored_len_of s
stored_len_of-cons c s = stored_len_of-append (c ∷ []) s

pub as_bytes-IsPrintable : (s : Str) → IsPrintable s → as_bytes s ≡ s
unfolding as_bytes encode_char
as_bytes-IsPrintable [] h = refl
as_bytes-IsPrintable (c ∷ s) h = ground (arith, as_bytes-IsPrintable s h.1)

stored_len_sum-IsPrintable : (s : Str) → IsPrintable s → stored_len_sum s ≡ length s
unfolding stored_len_sum stored_len
stored_len_sum-IsPrintable [] h = refl
stored_len_sum-IsPrintable (c ∷ s) h = ground (arith, stored_len_sum-IsPrintable s h.1)

stored_len_of-IsPrintable : (s : Str) → IsPrintable s → stored_len_of s ≡ length s
unfolding stored_len_of
stored_len_of-IsPrintable s h = rw (as_bytes-IsPrintable s h) (stored_len_sum-IsPrintable s h)

length-le-stored_len_sum : (b : Bytes) → length b ≤ stored_len_sum b
unfolding stored_len_sum stored_len
length-le-stored_len_sum [] = omega arith
length-le-stored_len_sum (x ∷ b) = ground (arith, length-le-stored_len_sum b)

pub len-le-stored_len_of : (s : Str) → len s ≤ stored_len_of s
unfolding stored_len_of
len-le-stored_len_of s = length-le-stored_len_sum (as_bytes s)

truncate_from-le :
    (used : ℕ) (s : Str) (budget : ℕ)
    → used ≤ budget
    → used + stored_len_of (truncate_from used s budget) ≤ budget
unfolding truncate_from
truncate_from-le used [] budget h = unfold stored_len_of stored_len_sum as_bytes in omega arith
truncate_from-le used (c ∷ s) budget h =
    elim (Bool-cases (ltb budget (used + stored_len_of (c ∷ [])))) [
      | inl e ↦ rw e (unfold stored_len_of stored_len_sum as_bytes in omega arith)
      | inr e ↦ rw e (
          omega (
            arith,
            truncate_from-le (used + stored_len_of (c ∷ [])) s budget (ground arith),
            stored_len_of-cons c (truncate_from (used + stored_len_of (c ∷ [])) s budget),
          ))
    ]

suffix_of-IsPrintable : (ip : Str) → IsPrintable ip → IsPrintable (suffix_of ip)
suffix_of-IsPrintable ip h = ground arith

pub take_all : (n : ℕ) (xs : Bytes) → length xs ≤ n → take n xs ≡ xs
take_all zero [] h = refl
take_all zero (x ∷ xs) h = absurd (omega (arith, h))
take_all (suc n) [] h = refl
take_all (suc n) (x ∷ xs) h = ap (◌∷◌ x) (take_all n xs (omega (arith, h)))

-- The next character, if there is one, no longer fits: `used` and `kept` with it pass `budget`.
abbrev pub Overflows : ℕ → ℕ → Str → Str → Type 0
Overflows budget used kept [] = Unit
Overflows budget used kept (c ∷ rest) = budget < used + stored_len_of (kept ++ c ∷ [])

Overflows-cons :
    (budget used c : ℕ) (kept dropped : Str)
    → Overflows budget (used + stored_len_of (c ∷ [])) kept dropped
    → Overflows budget used (c ∷ kept) dropped
Overflows-cons budget used c kept [] h = tt
Overflows-cons budget used c kept (d ∷ rest) h =
    omega (arith, stored_len_of-cons c (kept ++ d ∷ []))

Overflows-add :
    (total n m : ℕ) (kept dropped : Str)
    → n ≤ total
    → n ≡ m
    → Overflows (total - n) 0 kept dropped
    → Overflows total m kept dropped
Overflows-add total n m kept [] le e h = tt
Overflows-add total n m kept (d ∷ rest) le e h = omega arith

-- Where the loop stops: `kept` and `dropped` make up the text, and what is kept fits the budget
-- with nothing of `dropped` behind it.
record IsCut (used : ℕ) (s : Str) (budget : ℕ) (kept dropped : Str) : Type 0 where
  pub splits : s ≡ kept ++ dropped
  pub full : Overflows budget used kept dropped

truncate_from-IsCut :
    (used : ℕ) (s : Str) (budget : ℕ)
    → (dropped : Str) × IsCut used s budget (truncate_from used s budget) dropped
unfolding truncate_from
truncate_from-IsCut used [] budget = ([], record { splits = refl; full = tt })
truncate_from-IsCut used (c ∷ s) budget =
    let cost = stored_len_of (c ∷ []) in
    let (dropped, cut) = truncate_from-IsCut (used + cost) s budget in
    elim (Bool-cases (ltb budget (used + cost))) [
      | inl e ↦ rw e (c ∷ s, record { splits = refl; full = ground arith })
      | inr e ↦ rw e (
        dropped,
        record {
          splits = ap (◌∷◌ c) cut.splits;
          full =
              Overflows-cons budget used c (truncate_from (used + cost) s budget) dropped cut.full;
        },
      )
    ]

-- With the next character of the client's name, if there is one, the server would cut something off.
abbrev pub NoRoom : Str → Str → Str → Type 0
NoRoom ip kept [] = Unit
NoRoom ip kept (c ∷ rest) = 63 < cleaned_len ((kept ++ c ∷ []) ++ suffix_of ip)

-- What is known of an application name with the address behind it, by what the server stores.
pub record IsAddressed (name ip out : Str) : Type 0 where
  pub kept : Str
  pub dropped : Str
  pub splits : name ≡ kept ++ dropped
  pub shape : out ≡ kept ++ suffix_of ip
  pub fits : cleaned_len out ≤ 63
  pub stored : server_stores (as_bytes out) ≡ pg_clean_ascii (as_bytes kept) ++ suffix_of ip
  pub full : NoRoom ip kept dropped

len-suffix_of : (ip : Str) → IsPrintable ip → len (suffix_of ip) ≡ length (suffix_of ip)
len-suffix_of ip h = ap length (as_bytes-IsPrintable (suffix_of ip) (suffix_of-IsPrintable ip h))

cleaned-addressed :
    (kept ip : Str)
    → IsPrintable ip
    → pg_clean_ascii (as_bytes (kept ++ suffix_of ip))
      ≡ pg_clean_ascii (as_bytes kept) ++ suffix_of ip
cleaned-addressed kept ip h =
    ap (λ (b : Bytes). pg_clean_ascii b) (as_bytes-append kept (suffix_of ip))
    ∙ pg_clean_ascii-append (as_bytes kept) (as_bytes (suffix_of ip))
    ∙ ap (λ (b : Bytes). pg_clean_ascii (as_bytes kept) ++ pg_clean_ascii b)
        (as_bytes-IsPrintable (suffix_of ip) (suffix_of-IsPrintable ip h))
    ∙ ap (λ (b : Bytes). pg_clean_ascii (as_bytes kept) ++ b)
        (pg_clean_ascii_printable (suffix_of ip) (suffix_of-IsPrintable ip h))

NoRoom-of_Overflows :
    (ip kept dropped : Str)
    → IsPrintable ip
    → Overflows 63 (length (suffix_of ip)) kept dropped
    → NoRoom ip kept dropped
NoRoom-of_Overflows ip kept [] h full = tt
NoRoom-of_Overflows ip kept (c ∷ rest) h full = omega (
  arith,
  full,
  stored_len_of_lem ((kept ++ c ∷ []) ++ suffix_of ip),
  stored_len_of-append (kept ++ c ∷ []) (suffix_of ip),
  stored_len_of-IsPrintable (suffix_of ip) (suffix_of-IsPrintable ip h),
)

-- What the server stores of a value that it does not cut off.
stores-fits :
    (out : Str) (stored : Bytes)
    → pg_clean_ascii (as_bytes out) ≡ stored
    → cleaned_len out ≤ 63
    → server_stores (as_bytes out) ≡ stored
stores-fits out stored e fits = take_all 63 (pg_clean_ascii (as_bytes out)) fits ∙ e

-- The result for a printable address of fewer than 60 characters: a prefix of the client's name,
-- then " - " and the whole address. As PostgreSQL cleans it, `\xNN` for each byte outside printable
-- ASCII, it has at most 63 characters, so that the server stores it with " - " and the whole address
-- at its end; and the prefix is the longest for which that holds.
pub format_application_name-IsAddressed :
    (name ip : Str)
    → IsPrintable ip
    → length ip < 60
    → IsAddressed name ip (format_application_name name ip)
unfolding format_application_name truncate_to_stored_budget
format_application_name-IsAddressed name ip h short =
    let n = len (suffix_of ip) in
    let same = len-suffix_of ip h in
    let room : leb 63 n ≡ false = ground (arith, same) in
    let kept = truncate_from 0 name (63 - n) in
    let (dropped, cut) = truncate_from-IsCut 0 name (63 - n) in
    let fits : cleaned_len (kept ++ suffix_of ip) ≤ 63 = omega (
      arith,
      stored_len_of_lem (kept ++ suffix_of ip),
      stored_len_of-append kept (suffix_of ip),
      stored_len_of-IsPrintable (suffix_of ip) (suffix_of-IsPrintable ip h),
      same,
      truncate_from-le 0 name (63 - n) (omega arith),
    ) in
    rw room (record {
      kept = kept;
      dropped = dropped;
      splits = cut.splits;
      shape = refl;
      fits = fits;
      stored = stores-fits (kept ++ suffix_of ip) _ (cleaned-addressed kept ip h) fits;
      full = NoRoom-of_Overflows ip kept dropped h (
          Overflows-add 63 n (length (suffix_of ip)) kept dropped (ground (arith, same)) same
            cut.full);
    })

-- With any address at all the server stores no more than 63 characters, if the address is
-- printable.
pub format_application_name-le :
    (name ip : Str) → IsPrintable ip → stored_len_of (format_application_name name ip) ≤ 63
unfolding format_application_name truncate_to_stored_budget
format_application_name-le name ip h = elim (Bool-cases (leb 63 (len (suffix_of ip)))) [
  | inl e ↦ rw e (omega (arith, truncate_from-le 0 (suffix_of ip) 63 (omega arith)))
  | inr e ↦ omega (
    arith,
    (format_application_name-IsAddressed name ip h (ground (arith, len-suffix_of ip h))).fits,
    stored_len_of_lem (format_application_name name ip),
  )
]

-- In bytes the result is no longer than what the server stores.
pub len-format_application_name :
    (name ip : Str) → IsPrintable ip → len (format_application_name name ip) ≤ 63
len-format_application_name name ip h = omega (
  arith,
  format_application_name-le name ip h,
  len-le-stored_len_of (format_application_name name ip),
)
