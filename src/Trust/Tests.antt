-- ===== src/Trust/Tests.antt =====
-- Runs of the allowlist and of the throttle.
use pg_prism.Prelude.{
  any, list_eq, ℕ, ◌+◌, List, [], ◌∷◌, some, ◌≡◌, ◌↔◌, refl, arith, true, length, Exists,
}
use pg_prism.Text.{codes, trim}
use pg_prism.Text.Split.{split}
use pg_prism.Net.{IpAddr, v4, v6, ip_from_str, to_ipv4_mapped}
use pg_prism.Net.Cidr.Hosts.{hosts, host}
use pg_prism.Trust.{TrustedProxies, ok, entries_of, parse, parse_entry, is_trusted, default_log}
use pg_prism.Trust.Listed.{Listed, is_trusted-Listed, is_trusted-mapped}
use pg_prism.Trust.Throttle.{
  run_log, accounted, line_times, IsSpaced, run_log-accounted, run_log-IsSpaced,
}

abbrev one_host : TrustedProxies hosts
one_host = record { nets = host (v4 9 8 7 6) ∷ []; spec = codes "9.8.7.6" }

abbrev mapped_peer : IpAddr
mapped_peer = v6 0 0 0 0 0 0xFFFF 0x908 0x706

reads : parse hosts (codes "9.8.7.6") ≡ ok one_host
unfolding parse entries_of split trim parse_entry list_eq ip_from_str
reads = refl

is_trusted-Listed_example :
    (is_trusted hosts one_host mapped_peer ≡ true)
    ↔ Exists (Listed hosts mapped_peer) (entries_of (codes "9.8.7.6"))
is_trusted-Listed_example = is_trusted-Listed hosts (codes "9.8.7.6") one_host mapped_peer reads

is_mapped : to_ipv4_mapped mapped_peer ≡ some (v4 9 8 7 6)
unfolding to_ipv4_mapped
is_mapped = refl

trusts : is_trusted hosts one_host (v4 9 8 7 6) ≡ true
unfolding is_trusted any
trusts = refl

mapped_peer_trusted : is_trusted hosts one_host mapped_peer ≡ true
mapped_peer_trusted = is_trusted-mapped hosts one_host mapped_peer (v4 9 8 7 6) is_mapped trusts

-- Five refusals, in seconds.
abbrev times : List ℕ
times = 0 ∷ 1 ∷ 29 ∷ 30 ∷ 31 ∷ []

run_log-accounted_example :
    accounted (run_log default_log times).0 + (run_log default_log times).1.suppressed
    ≡ length times + default_log.suppressed
run_log-accounted_example = run_log-accounted default_log times (omega arith)

run_log-IsSpaced_example :
    IsSpaced default_log.interval default_log.last (line_times times (run_log default_log times).0)
run_log-IsSpaced_example = run_log-IsSpaced default_log times
