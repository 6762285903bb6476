-- ===== src/Text/Utf8.antt =====
-- `String::from_utf8_lossy`: every maximal invalid piece becomes U+FFFD.
use mathlib.Core.Path.{subst}
use pg_prism.Prelude.{
  ℕ, zero, suc, ◌+◌, ◌-◌, ◌*◌, ◌≤◌, ◌<◌, [], ◌∷◌, ◌++◌, ◌≡◌, ◌≢◌, ◌⊎◌, refl, arith, ltb, ◌==◌,
  within, if◌then◌else◌, All, All-append, Bool-cases, inl, inr,
}
use pg_prism.Text.{Str, Bytes}

-- Between two bytes: at a character's start, or `left` bytes before the last one of a character
-- whose bits so far are `bits`, where the next byte must lie in `lo..=hi`.
pub data Decoder : Type 0 where
  start : Decoder
  inside : (left bits lo hi : ℕ) → Decoder

abbrev pub replacement : ℕ
replacement = 0xFFFD

-- The first byte of a character.
first_byte : ℕ → Str × Decoder
first_byte b =
    if ltb b 0x80
    then (b ∷ [], start)
    else if within 0xC2 0xDF b
    then ([], inside 0 (b - 0xC0) 0x80 0xBF)
    else if b == 0xE0
    then ([], inside 1 0 0xA0 0xBF)
    else if b == 0xED
    then ([], inside 1 0xD 0x80 0x9F)
    else if within 0xE1 0xEF b
    then ([], inside 1 (b - 0xE0) 0x80 0xBF)
    else if b == 0xF0
    then ([], inside 2 0 0x90 0xBF)
    else if b == 0xF4
    then ([], inside 2 4 0x80 0x8F)
    else if within 0xF1 0xF3 b
    then ([], inside 2 (b - 0xF0) 0x80 0xBF)
    else (replacement ∷ [], start)

-- A byte out of range ends the invalid piece, and is read again as a first byte.
abbrev restart : Str × Decoder → Str × Decoder
restart (out, d) = (replacement ∷ out, d)

decode_byte : Decoder → ℕ → Str × Decoder
decode_byte start b = first_byte b
decode_byte (inside zero bits lo hi) b =
    if within lo hi b then ((bits * 64 + (b - 0x80)) ∷ [], start) else restart (first_byte b)
decode_byte (inside (suc left) bits lo hi) b =
    if within lo hi b
    then ([], inside left (bits * 64 + (b - 0x80)) 0x80 0xBF)
    else restart (first_byte b)

decode_end : Decoder → Str
decode_end start = []
decode_end (inside _ _ _ _) = replacement ∷ []

decode : Decoder → Bytes → Str
decode d [] = decode_end d
decode d (b ∷ bs) = let (out, d') = decode_byte d b in out ++ decode d' bs

unfoldable pub from_utf8_lossy : Bytes → Str
unfolding decode decode_byte first_byte decode_end
from_utf8_lossy = decode start

-- The character under way is no ASCII character, whatever follows.
abbrev IsWide : Decoder → Type 0
IsWide start = Unit
IsWide (inside zero bits lo hi) = (2 ≤ bits) × (0x80 ≤ lo)
IsWide (inside (suc zero) bits lo hi) = (130 ≤ bits * 64 + lo) × (0x80 ≤ lo)
IsWide (inside (suc (suc n)) bits lo hi) = (129 ≤ bits * 64 + lo) × (0x80 ≤ lo)

first_byte-IsWide : (b : ℕ) → IsWide (first_byte b).1
unfolding first_byte
first_byte-IsWide b = ground arith

decode_byte-IsWide : (d : Decoder) (b : ℕ) → IsWide d → IsWide (decode_byte d b).1
unfolding decode_byte
decode_byte-IsWide start b w = first_byte-IsWide b
decode_byte-IsWide (inside zero bits lo hi) b w = ground (arith, first_byte-IsWide b)
decode_byte-IsWide (inside (suc zero) bits lo hi) b w = ground (arith, first_byte-IsWide b)
decode_byte-IsWide (inside (suc (suc zero)) bits lo hi) b w = ground (arith, first_byte-IsWide b)
decode_byte-IsWide (inside (suc (suc (suc n))) bits lo hi) b w = ground (arith, first_byte-IsWide b)

-- What a first byte gives: a character under way, itself, or U+FFFD.
abbrev IsFirst : ℕ → Str × Decoder → Type 0
IsFirst b ([], start) = ⊥
IsFirst b ([], inside _ _ _ _) = Unit
IsFirst b (c ∷ [], start) = (c ≡ b) ⊎ (c ≡ replacement)
IsFirst b (c ∷ [], inside _ _ _ _) = ⊥
IsFirst b (c ∷ d ∷ out, _) = ⊥

first_byte-IsFirst : (b : ℕ) → IsFirst b (first_byte b)
unfolding first_byte
first_byte-IsFirst b = ground arith

-- A text that is empty, or begins with no ASCII character.
abbrev BeginsWide : Str → Type 0
BeginsWide [] = ⊥
BeginsWide (c ∷ s) = 0x80 ≤ c

-- A character under way yields a character, and no ASCII one.
inside-BeginsWide :
    (left bits lo hi : ℕ) (bs : Bytes)
    → IsWide (inside left bits lo hi)
    → BeginsWide (decode (inside left bits lo hi) bs)
unfolding decode decode_byte decode_end
inside-BeginsWide left bits lo hi [] w = omega arith
inside-BeginsWide zero bits lo hi (b ∷ bs) w = elim (Bool-cases (within lo hi b)) [
  | inl e ↦ rw e (ground arith)
  | inr e ↦ rw e (omega arith)
]
inside-BeginsWide (suc left) bits lo hi (b ∷ bs) w = elim (Bool-cases (within lo hi b)) [
  | inl e ↦ rw e (
      inside-BeginsWide left (bits * 64 + (b - 0x80)) 0x80 0xBF bs
        (rw e at (decode_byte-IsWide (inside (suc left) bits lo hi) b w)))
  | inr e ↦ rw e (omega arith)
]

-- The text of a first byte's result and of all that follows.
abbrev followed : Str × Decoder → Bytes → Str
followed (out, d) bs = out ++ decode d bs

followed-ne-nil :
    (b : ℕ) (r : Str × Decoder) (bs : Bytes) → IsFirst b r → IsWide r.1 → followed r bs ≢ []
followed-ne-nil b ([], start) bs f w = absurd f
followed-ne-nil b ([], inside left bits lo hi) bs f w =
    λ e. subst BeginsWide e (inside-BeginsWide left bits lo hi bs w)
followed-ne-nil b (c ∷ out, d) bs f w = λ e. cc

followed-ascii :
    (b : ℕ) (r : Str × Decoder) (bs : Bytes)
    → IsFirst b r
    → IsWide r.1
    → (All (λ c. c < 0x80) (decode start bs) → decode start bs ≡ bs)
    → All (λ c. c < 0x80) (followed r bs)
    → followed r bs ≡ b ∷ bs
followed-ascii b ([], start) bs f w ih h = absurd f
followed-ascii b ([], inside left bits lo hi) bs f w ih h =
    absurd
      (not_both (decode (inside left bits lo hi) bs) (inside-BeginsWide left bits lo hi bs w) h)
  where
    not_both : (s : Str) → BeginsWide s → All (λ c. c < 0x80) s → ⊥
    not_both [] v a = v
    not_both (c ∷ s) v a = omega arith
followed-ascii b (c ∷ [], start) bs f w ih h = ground (arith, ih h.1)
followed-ascii b (c ∷ [], inside _ _ _ _) bs f w ih h = absurd f
followed-ascii b (c ∷ d ∷ out, _) bs f w ih h = absurd f

-- No character comes out of nothing, and at least one of something.
pub from_utf8_lossy-ne-nil : (b : ℕ) (bs : Bytes) → from_utf8_lossy (b ∷ bs) ≢ []
unfolding from_utf8_lossy
from_utf8_lossy-ne-nil b bs =
    followed-ne-nil b (first_byte b) bs (first_byte-IsFirst b) (first_byte-IsWide b)

first_byte-nonzero : (b : ℕ) → b ≢ 0 → All (λ c. c ≢ 0) (first_byte b).0
unfolding first_byte
first_byte-nonzero b h = ground arith

decode_byte-nonzero :
    (d : Decoder) (b : ℕ) → IsWide d → b ≢ 0 → All (λ c. c ≢ 0) (decode_byte d b).0
unfolding decode_byte
decode_byte-nonzero start b w h = first_byte-nonzero b h
decode_byte-nonzero (inside zero bits lo hi) b w h = ground (arith, first_byte-nonzero b)
decode_byte-nonzero (inside (suc left) bits lo hi) b w h = ground (arith, first_byte-nonzero b)

decode-nonzero :
    (d : Decoder) (bs : Bytes) → IsWide d → All (λ c. c ≢ 0) bs → All (λ c. c ≢ 0) (decode d bs)
unfolding decode decode_end
decode-nonzero start [] w h = tt
decode-nonzero (inside _ _ _ _) [] w h = omega arith
decode-nonzero d (b ∷ bs) w h =
    All-append _ (decode_byte d b).0 _ (decode_byte-nonzero d b w h.0)
      (decode-nonzero (decode_byte d b).1 bs (decode_byte-IsWide d b w) h.1)

-- NUL comes only out of NUL.
pub from_utf8_lossy-nonzero :
    (bs : Bytes) → All (λ c. c ≢ 0) bs → All (λ c. c ≢ 0) (from_utf8_lossy bs)
unfolding from_utf8_lossy
from_utf8_lossy-nonzero bs h = decode-nonzero start bs tt h

decode-ascii : (bs : Bytes) → All (λ c. c < 0x80) (decode start bs) → decode start bs ≡ bs
unfolding decode decode_byte decode_end
decode-ascii [] h = refl
decode-ascii (b ∷ bs) h =
    followed-ascii b (first_byte b) bs (first_byte-IsFirst b) (first_byte-IsWide b)
      (decode-ascii bs) h

-- An ASCII text comes out of its own bytes only.
pub from_utf8_lossy-ascii :
    (bs : Bytes) → All (λ c. c < 0x80) (from_utf8_lossy bs) → from_utf8_lossy bs ≡ bs
unfolding from_utf8_lossy
from_utf8_lossy-ascii = decode-ascii

-- And its bytes give it.
pub from_utf8_lossy-of_ascii : (bs : Bytes) → All (λ c. c < 0x80) bs → from_utf8_lossy bs ≡ bs
unfolding from_utf8_lossy
from_utf8_lossy-of_ascii bs h = decoded bs h
  where
    decoded : (bs : Bytes) → All (λ c. c < 0x80) bs → decode start bs ≡ bs
    decoded [] h = refl
    decoded (b ∷ bs) (lo, h) = ground (arith, lo, decoded bs h)
