-- ===== src/Proxy/Tests.antt =====
-- Runs of the handshake and of `handle_client`.
mod Begins
mod Answers
use pg_prism.Prelude.{
  some, any, list_eq, [], ◌∷◌, ◌++◌, none, ◌≡◌, ◌≢◌, refl, arith, true, false, ◌⊎◌, length,
}
use pg_prism.Text.{Bytes, codes, starts_with, trim}
use pg_prism.Text.Utf8.{from_utf8_lossy}
use pg_prism.Text.Split.{split}
use pg_prism.Wire.{to_be_bytes, from_be_bytes}
use pg_prism.Net.{
  IpAddr, v4, ip_from_str, read_char, read_ipv4_addr, read_ipv6_addr, read_number, to_ipv4_mapped,
}
use pg_prism.Net.Cidr.Hosts.{hosts, host}
use pg_prism.Limits.{default_limits}
use pg_prism.Trust.{RejectionLog, default_log, is_trusted, normalise, should_log}
use pg_prism.Guardian.Rules.{
  Rule, allow, deny, LocalTime, check_connection, check_rules, ips_match, lists, context_of,
  on_time, names_block_of,
}
use pg_prism.Protocol.{ssl_request, inject_ip_startup, is_supported_startup, startup_major}
use pg_prism.Proxy.Stream.{
  Incoming, closed, silent, BufReader, buffered, Outgoing, content, flatten, read_exact, write_all,
}
use pg_prism.Proxy.Header.{ok, protocol, header_too_long, ◌>>=◌, parse_header, read_proxy_v1_header}
use pg_prism.Proxy.Header.Line.{IsOneLine, read_proxy_v1_header-line, read_proxy_v1_header-long}
use pg_prism.Proxy.Header.Words.{line_of}
use pg_prism.Proxy.Header.RoundTrip.{read_proxy_v1_header-line_of}
use pg_prism.Proxy.Handshake.{perform_handshake, negotiate, read_packet, checked_startup_len}
use pg_prism.Proxy.Handshake.Bounds.{Yields, FitsLimits, payload_of, perform_handshake-Yields}
use pg_prism.Proxy.Handshake.Fuel.{negotiate-enough}
use pg_prism.Proxy.Client.{
  accepts, Session, Outcome, finished, forwarding, ProxyConfig, handle_client, new_socket,
  connect_upstream, write_packet, write_both,
}
use pg_prism.Proxy.Client.Complete.{
  Hello, IsHello, hello_bytes, Begun, context_for, handle_client-begins,
}
use pg_prism.Proxy.Client.Upstream.{MayEnd, handle_client-MayEnd}
use pg_prism.Proxy.Tasks
use pg_prism.Proxy.Tasks.{State, Reach, unmoved, later, answer, down_lock, send_done}
use pg_prism.Proxy.Tasks.WholeSession.{Told, handle_client-Told}
use pg_prism.Proxy.Client.Framed.{read_startup, handle_client-framed}
use pg_prism.Proxy.Client.Shown.{Shows, handle_client-Shows}

abbrev pub startup_bytes : Bytes
startup_bytes = 0 ∷ 3 ∷ 0 ∷ 0 ∷ (codes "user" ++ 0 ∷ codes "bob" ++ 0 ∷ 0 ∷ [])

abbrev header_line : Bytes
header_line = codes "PROXY T 9.8.7.6"

-- The header and the startup message, in two pieces.
abbrev client_socket : Incoming
client_socket = record {
  chunks = (header_line ++ b'\n' ∷ []) ∷ (to_be_bytes 18 ++ startup_bytes) ∷ [];
  ending = silent;
}

abbrev pub peer : IpAddr
peer = v4 127 0 0 1

abbrev let_in : Rule
let_in = record {
  name = codes "all";
  action = allow;
  ips = none;
  users = none;
  databases = none;
  time_range = none;
  block_queries = none;
  block_tables = none;
}

abbrev pub config : ProxyConfig hosts
config = record {
  guardian = record { rules = let_in ∷ [] };
  tls_acceptor = none;
  trusted = record { nets = host peer ∷ []; spec = codes "127.0.0.1" };
  limits = default_limits;
}

abbrev pub noon : LocalTime
noon = record { hour = 12; minute = 0 }

abbrev pub nothing_sent : Outgoing
nothing_sent = new_socket (λ n. none)

abbrev run : Outcome × RejectionLog
run =
    handle_client hosts 100 config noon (accepts 0 (λ n. none)) default_log 0 peer client_socket
      nothing_sent

abbrev begun : Session
begun = record {
  client_in = buffered (record { chunks = []; ending = silent });
  client_out = nothing_sent;
  upstream =
      (write_packet (new_socket (λ n. none)) (inject_ip_startup startup_bytes (codes "9.8.7.6"))).1;
  context = record { action = allow; block_queries = []; block_tables = [] };
}

runs : run.0 ≡ forwarding begun
unfolding handle_client perform_handshake read_proxy_v1_header write_packet is_trusted any
    read_exact parse_header starts_with from_utf8_lossy split trim read_packet to_be_bytes
    from_be_bytes is_supported_startup startup_major check_connection ip_from_str check_rules
    ips_match lists context_of on_time names_block_of list_eq write_both write_all
    checked_startup_len read_char read_ipv4_addr read_ipv6_addr read_number normalise to_ipv4_mapped
    should_log connect_upstream
runs = refl

handle_client-Shows_example : Shows hosts config noon begun
handle_client-Shows_example =
    handle_client-Shows hosts config noon peer 100 (accepts 0 (λ n. none)) default_log 0
      client_socket nothing_sent begun runs

-- The server has answered once, and the client has been sent it.
abbrev answered : (s : State) × Reach begun.context (Tasks.begin begun (codes "ok" ∷ []) closed) s
unfolding write_packet write_both write_all
answered = (
  _,
  later (later (later unmoved (answer _ _ _ refl refl)) (down_lock _ refl refl))
      (send_done _ _ refl refl),
)

handle_client-Told_example : Told hosts config noon peer begun answered.0.upstream.sent
unfolding write_packet write_both write_all
handle_client-Told_example =
    handle_client-Told hosts config noon peer 100 (accepts 0 (λ n. none)) default_log 0
      client_socket nothing_sent begun (codes "ok" ∷ []) closed answered.0 runs
      (λ n k m failed later. absurd (cc failed)) answered.1

handle_client-framed_example : (message : Bytes) × (read_startup begun.upstream.sent ≡ some message)
handle_client-framed_example =
    handle_client-framed hosts config noon peer 100 (accepts 0 (λ n. none)) default_log 0
      client_socket nothing_sent begun (omega arith) runs

handle_client-MayEnd_example :
    ((is_trusted hosts config.trusted peer ≡ true)
      × MayEnd hosts config noon peer
          (perform_handshake 100 default_limits none client_socket nothing_sent).0
          run.0)
    ⊎ ((is_trusted hosts config.trusted peer ≡ false) × (run.0 ≡ finished nothing_sent none))
handle_client-MayEnd_example =
    handle_client-MayEnd hosts config noon peer 100 (accepts 0 (λ n. none)) default_log 0
      client_socket nothing_sent

perform_handshake-Yields_example :
    Yields
      (λ o. FitsLimits default_limits (payload_of o))
      (perform_handshake 100 default_limits none client_socket nothing_sent).0
perform_handshake-Yields_example =
    perform_handshake-Yields default_limits 100 none client_socket nothing_sent

-- An SSLRequest, and the startup message behind it.
abbrev two_packets : BufReader
two_packets = record {
  buffer = [];
  chunks = (to_be_bytes 8 ++ to_be_bytes ssl_request) ∷ (to_be_bytes 18 ++ startup_bytes) ∷ [];
  ending = closed;
}

two_packets-length : length (content two_packets) ≡ 26
unfolding content to_be_bytes
two_packets-length = refl

negotiate-enough_example :
    negotiate 27 default_limits none (codes "9.8.7.6") two_packets nothing_sent
    ≡ negotiate 100 default_limits none (codes "9.8.7.6") two_packets nothing_sent
negotiate-enough_example =
    negotiate-enough default_limits none (codes "9.8.7.6") 27 100 two_packets nothing_sent
      (omega (arith, two_packets-length)) (omega (arith, two_packets-length))

abbrev header_reader : BufReader
header_reader = buffered client_socket

framed_header :
    (r : BufReader) × (read_proxy_v1_header 108 header_reader
      ≡ parse_header (header_line ++ b'\n' ∷ []) >>= (λ client_ip. ok (client_ip, r)))
    × (content r ≡ to_be_bytes 18 ++ startup_bytes)
    × (r.ending ≡ silent)
unfolding content to_be_bytes
framed_header =
    read_proxy_v1_header-line 108 header_line (to_be_bytes 18 ++ startup_bytes) header_reader plain
      (omega arith) refl
  where
    plain : IsOneLine header_line
    plain = (
      refl,
      (
        refl,
        (
          refl,
          (
            refl,
            (
              refl,
              (refl, (refl, (refl, (refl, (refl, (refl, (refl, (refl, (refl, (refl, tt)))))))))),
            ),
          ),
        ),
      ),
    )

read_proxy_v1_header-long_example :
    read_proxy_v1_header 5 header_reader ≡ protocol (header_too_long 5)
unfolding content to_be_bytes
read_proxy_v1_header-long_example =
    read_proxy_v1_header-long 5 (codes "PROXY")
      (codes " T 9.8.7.6" ++ b'\n' ∷ (to_be_bytes 18 ++ startup_bytes)) header_reader
      (refl, (refl, (refl, (refl, (refl, tt))))) (omega arith) refl refl

-- The header in two pieces, with the startup message behind it.
abbrev balanced_line : Bytes
balanced_line = line_of (codes "TCP4") (codes "9.8.7.6") (codes "10.0.0.1 4711 5432")

abbrev balanced : BufReader
balanced = buffered (record {
  chunks = codes "PROX" ∷ codes "Y TCP4 9.8.7.6 10.0.0.1 4711 5432\r\nmore" ∷ [];
  ending = silent;
})

read_proxy_v1_header-line_of_example :
    (r : BufReader) × (read_proxy_v1_header 108 balanced ≡ ok (codes "9.8.7.6", r))
    × (content r ≡ codes "more")
    × (r.ending ≡ silent)
unfolding content
read_proxy_v1_header-line_of_example =
    read_proxy_v1_header-line_of 108 (codes "TCP4") (codes "9.8.7.6") (codes "10.0.0.1 4711 5432")
      (codes "more") balanced (ground arith) (ground arith) (ground arith) (omega arith) refl
