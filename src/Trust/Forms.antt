-- ===== src/Trust/Forms.antt =====
-- The forms of a peer's address, by the layout of IPv4-mapped addresses in RFC 4291, and `normalise` of
-- core/rust/src/trust.rs.
use pg_prism.Prelude.{
  ℕ, ◌+◌, ◌*◌, ◌/◌, ◌%◌, ◌<◌, Bool, true, ◌&&◌, Bool-cases, ◌==◌, ◌≡◌, ◌⊎◌, inl, inr, refl, sym,
  arith,
}
use pg_prism.Net.{IpAddr, v4, v6, to_ipv4_mapped}
use pg_prism.Trust.{normalise}

-- The peer is `::ffff:a.b.c.d`, in 16-bit groups.
abbrev pub IsMapped : IpAddr → IpAddr → Type 0
IsMapped (v4 a b c d) peer =
    (b < 256) × (d < 256) × (peer ≡ v6 0 0 0 0 0 0xFFFF (a * 256 + b) (c * 256 + d))
IsMapped (v6 _ _ _ _ _ _ _ _) peer = ⊥

-- The address is the peer's, or its IPv4 form.
abbrev pub IsForm : IpAddr → IpAddr → Type 0
IsForm peer ip = (ip ≡ peer) ⊎ IsMapped ip peer

abbrev marks : (a b c d e f : ℕ) → Bool
marks a b c d e f = a == 0 && b == 0 && c == 0 && d == 0 && e == 0 && f == 0xFFFF

group_eq : (g : ℕ) → g ≡ (g / 256) * 256 + g % 256
group_eq g = omega arith

mapped_groups :
    (a b c d e f g h : ℕ)
    → marks a b c d e f ≡ true
    → v6 a b c d e f g h
      ≡ v6 0 0 0 0 0 0xFFFF ((g / 256) * 256 + g % 256) ((h / 256) * 256 + h % 256)
mapped_groups a b c d e f g h m =
    let a0 : a ≡ 0 = ground (arith, m) in
    let b0 : b ≡ 0 = ground (arith, m) in
    let c0 : c ≡ 0 = ground (arith, m) in
    let d0 : d ≡ 0 = ground (arith, m) in
    let e0 : e ≡ 0 = ground (arith, m) in
    let f1 : f ≡ 0xFFFF = ground (arith, m) in
    rw (a0, b0, c0, d0, e0, f1, sym (group_eq g), sym (group_eq h)) refl

pub normalise-IsForm : (peer : IpAddr) → IsForm peer (normalise peer)
unfolding normalise to_ipv4_mapped
normalise-IsForm (v4 a b c d) = inl refl
normalise-IsForm (v6 a b c d e f g h) = elim (Bool-cases (marks a b c d e f)) [
  | inl m ↦ rw m (inr (omega arith, omega arith, mapped_groups a b c d e f g h m))
  | inr n ↦ rw n (inl refl)
]

v4_eq :
    (a b c d : ℕ)
    → b < 256
    → d < 256
    → v4 a b c d
      ≡ v4 ((a * 256 + b) / 256) ((a * 256 + b) % 256) ((c * 256 + d) / 256) ((c * 256 + d) % 256)
v4_eq a b c d lo lo' =
    let a' : (a * 256 + b) / 256 ≡ a = omega (arith, lo) in
    let b' : (a * 256 + b) % 256 ≡ b = omega (arith, lo) in
    let c' : (c * 256 + d) / 256 ≡ c = omega (arith, lo') in
    let d' : (c * 256 + d) % 256 ≡ d = omega (arith, lo') in rw (a', b', c', d') refl

-- There are no others than the peer's address and its normal form.
pub IsForm-normalise : (peer ip : IpAddr) → IsForm peer ip → (ip ≡ peer) ⊎ (ip ≡ normalise peer)
unfolding normalise to_ipv4_mapped
IsForm-normalise peer ip (inl same) = inl same
IsForm-normalise peer (v4 a b c d) (inr (lo, lo', mapped)) = inr (rw mapped (v4_eq a b c d lo lo'))
IsForm-normalise peer (v6 _ _ _ _ _ _ _ _) (inr none) = elim none [ ]
