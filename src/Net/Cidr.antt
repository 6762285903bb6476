-- ===== src/Net/Cidr.antt =====
-- The `cidr` crate, which the repository only calls: an interface with what the program uses, and
-- the behaviour that its documentation states.
pub mod Hosts
use pg_prism.Prelude.{Bool, true, Option, ◌≡◌, ◌↔◌}
use pg_prism.Text.{Str}
use pg_prism.Net.{IpAddr, is_ipv4}

pub record CidrCrate : Type 1 where
  -- `IpCidr`
  pub IpCidr : Type 0
  -- `IpCidr::from_str`
  pub cidr_from_str : Str → Option IpCidr
  -- `IpCidr::new_host`
  pub new_host : IpAddr → IpCidr
  -- `cidr.contains(&addr)`
  pub contains : IpCidr → IpAddr → Bool
  -- `matches!(cidr, IpCidr::V4(_))`
  pub is_v4 : IpCidr → Bool
  -- A host block holds its address alone.
  pub contains-new_host : (a b : IpAddr) → (contains (new_host a) b ≡ true) ↔ (a ≡ b)
  -- A block holds addresses of its own family only.
  pub family : (net : IpCidr) (a : IpAddr) → contains net a ≡ true → is_v4 net ≡ is_ipv4 a
