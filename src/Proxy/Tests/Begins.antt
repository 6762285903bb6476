-- ===== src/Proxy/Tests/Begins.antt =====
-- A run of `handle_client` on a client that is let in.
use pg_prism.Prelude.{any, list_eq, [], ◌∷◌, ◌++◌, none, ◌≡◌, ◌≢◌, refl, arith, true}
use pg_prism.Text.{codes}
use pg_prism.Wire.{to_be_bytes, from_be_bytes}
use pg_prism.Net.{ip_from_str, read_char, read_ipv4_addr, read_ipv6_addr, read_number}
use pg_prism.Net.Cidr.Hosts.{hosts}
use pg_prism.Limits.{default_limits}
use pg_prism.Trust.{default_log, is_trusted}
use pg_prism.Guardian.Rules.{
  deny, check_connection, check_rules, ips_match, lists, context_of, on_time, names_block_of,
}
use pg_prism.Protocol.{is_supported_startup, startup_major}
use pg_prism.Proxy.Stream.{Incoming, silent, flatten}
use pg_prism.Proxy.Client.{accepts, Session, forwarding, handle_client}
use pg_prism.Proxy.Client.Complete.{
  Hello, IsHello, hello_bytes, Begun, context_for, handle_client-begins,
}
use pg_prism.Proxy.Tests.{startup_bytes, config, noon, peer, nothing_sent}

-- A load balancer and a client that sends on behind its startup message.
abbrev hello : Hello
hello = record {
  family = codes "TCP4";
  ip = codes "9.8.7.6";
  tail = codes "10.0.0.1 4711 5432";
  payload = startup_bytes;
  rest = codes "more";
}

abbrev hello_socket : Incoming
hello_socket = record {
  chunks =
      codes "PROX"
      ∷ codes "Y TCP4 9.8.7.6 10.0.0.1 4711 5432\r\n"
      ∷ to_be_bytes 18
      ∷ (startup_bytes ++ codes "mo")
      ∷ codes "re"
      ∷ [];
  ending = silent;
}

hello_arrives : flatten hello_socket.chunks ≡ hello_bytes hello
unfolding flatten to_be_bytes
hello_arrives = refl

hello_trusted : is_trusted hosts config.trusted peer ≡ true
unfolding is_trusted any
hello_trusted = refl

hello_let_in : (context_for hosts config noon peer hello).action ≢ deny
unfolding check_connection ip_from_str check_rules ips_match lists context_of on_time names_block_of
    list_eq read_char read_ipv4_addr read_ipv6_addr read_number
hello_let_in e = cc e

hello-IsHello : IsHello default_limits hello
unfolding is_supported_startup startup_major from_be_bytes
hello-IsHello = record {
  family = ground arith;
  ip = ground arith;
  tail = ground arith;
  short = omega arith;
  fits = (omega arith, omega arith);
  small = omega arith;
  supported = refl;
}

handle_client-begins_example :
    (s : Session) × ((handle_client hosts 3 config noon
        (accepts 0 (λ n. none))
        default_log
        0
        peer
        hello_socket
        nothing_sent).0
      ≡ forwarding s)
    × Begun hosts config noon peer hello hello_socket nothing_sent s
handle_client-begins_example =
    handle_client-begins hosts config noon peer 2 0 (λ n. none) default_log 0 hello_socket
      nothing_sent hello hello_trusted hello-IsHello hello_arrives hello_let_in
      (record { in_time = refl; prefix = refl; body = refl })
