-- ===== src/Wire.antt =====
-- Integers as big-endian bytes: `u32::to_be_bytes` and `u32::from_be_bytes`.
use pg_prism.Prelude.{ℕ, ◌+◌, ◌*◌, ◌/◌, ◌%◌, ◌<◌, [], ◌∷◌, ◌≡◌, refl, arith, length}
use pg_prism.Text.{Bytes}

abbrev pub u32_size : ℕ
u32_size = 4294967296

-- `n as u32`
abbrev pub as_u32 : ℕ → ℕ
as_u32 n = n % u32_size

-- `n.to_be_bytes()`
unfoldable pub to_be_bytes : ℕ → Bytes
to_be_bytes n = (n / 16777216 % 256) ∷ (n / 65536 % 256) ∷ (n / 256 % 256) ∷ (n % 256) ∷ []

-- `u32::from_be_bytes([a, b, c, d])`
unfoldable pub from_be_bytes : ℕ → ℕ → ℕ → ℕ → ℕ
from_be_bytes a b c d = a * 16777216 + b * 65536 + c * 256 + d

pub from_be_bytes-to_be_bytes :
    (n : ℕ)
    → n < u32_size
    → from_be_bytes (n / 16777216 % 256) (n / 65536 % 256) (n / 256 % 256) (n % 256) ≡ n
unfolding from_be_bytes
from_be_bytes-to_be_bytes n h = omega arith

pub length-to_be_bytes : (n : ℕ) → length (to_be_bytes n) ≡ 4
unfolding to_be_bytes
length-to_be_bytes n = refl
