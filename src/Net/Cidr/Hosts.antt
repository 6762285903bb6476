-- ===== src/Net/Cidr/Hosts.antt =====
-- An instance of the interface for concrete runs: blocks of one address, and the block of all IPv4
-- addresses, which `0.0.0.0/0` names.
use pg_prism.Prelude.{
  Bool, true, false, ◌&&◌, ◌==◌, Option, none, some, ◌≡◌, ◌↔◌, sym, ap, arith, list_eq, case_option,
  if◌then◌else◌,
}
use pg_prism.Text.{Str, codes}
use pg_prism.Net.{IpAddr, v4, v6, ip_from_str, is_ipv4}
use pg_prism.Net.Cidr.{CidrCrate}

pub data Block : Type 0 where
  host : IpAddr → Block
  all_v4 : Block

abbrev pub ip_eq : IpAddr → IpAddr → Bool
ip_eq (v4 a b c d) (v4 a' b' c' d') = a == a' && b == b' && c == c' && d == d'
ip_eq (v6 a b c d e f g h) (v6 a' b' c' d' e' f' g' h') =
    a == a' && b == b' && c == c' && d == d' && e == e' && f == f' && g == g' && h == h'
ip_eq _ _ = false

abbrev pub block_contains : Block → IpAddr → Bool
block_contains (host a) b = ip_eq a b
block_contains all_v4 b = is_ipv4 b

abbrev pub block_is_v4 : Block → Bool
block_is_v4 (host a) = is_ipv4 a
block_is_v4 all_v4 = true

abbrev pub block_from_str : Str → Option Block
block_from_str s =
    if list_eq s (codes "0.0.0.0/0")
    then some all_v4
    else case_option (ip_from_str s) none (λ a. some (host a))

pub ip_eq_iff : (a b : IpAddr) → (ip_eq a b ≡ true) ↔ (a ≡ b)
ip_eq_iff (v4 a b c d) (v4 a' b' c' d') = (λ h. ground arith, λ h. ground arith)
ip_eq_iff (v6 a b c d e f g h) (v6 a' b' c' d' e' f' g' h') = (λ h. ground arith, λ h. ground arith)
ip_eq_iff (v4 a b c d) (v6 a' b' c' d' e' f' g' h') = (λ h. absurd (cc h), λ h. absurd (cc h))
ip_eq_iff (v6 a b c d e f g h) (v4 a' b' c' d') = (λ h. absurd (cc h), λ h. absurd (cc h))

pub block_family :
    (net : Block) (a : IpAddr) → block_contains net a ≡ true → block_is_v4 net ≡ is_ipv4 a
block_family (host b) a h = ap is_ipv4 ((ip_eq_iff b a).0 h)
block_family all_v4 a h = sym h

abbrev pub hosts : CidrCrate
hosts = record {
  IpCidr = Block;
  cidr_from_str = block_from_str;
  new_host = host;
  contains = block_contains;
  is_v4 = block_is_v4;
  contains-new_host = ip_eq_iff;
  family = block_family;
}
