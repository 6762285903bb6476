-- ===== src/Main/Program/Tests.antt =====
-- A run of the process: a refused peer, an error of `accept`, and a client that gets through.
use pg_prism.Prelude.{
  true, any, list_eq, List, [], ◌∷◌, ◌++◌, Option, none, some, ◌≡◌, refl, if◌then◌else◌, get_elem?,
}
use pg_prism.Text.{Bytes, codes, starts_with, trim}
use pg_prism.Text.Utf8.{from_utf8_lossy}
use pg_prism.Text.Split.{split}
use pg_prism.Wire.{to_be_bytes, from_be_bytes}
use pg_prism.Net.{
  v4, ip_from_str, read_char, read_ipv4_addr, read_ipv6_addr, read_number, to_ipv4_mapped,
}
use pg_prism.Net.Cidr.Hosts.{hosts}
use pg_prism.Limits.{Env, limits_from_env}
use pg_prism.Trust.{
  trusted_from_env, parse, entries_of, parse_entry, is_trusted, normalise, should_log,
}
use pg_prism.Guardian.Rules.{
  inspect, check_connection, check_rules, ips_match, lists, context_of, on_time, names_block_of,
  load,
}
use pg_prism.Protocol.{inject_ip_startup, is_supported_startup, startup_major}
use pg_prism.Proxy.Stream.{closed, silent, buffered, Outgoing, read_exact, write_all}
use pg_prism.Proxy.Header.{parse_header, read_proxy_v1_header}
use pg_prism.Proxy.Handshake.{perform_handshake, read_packet, checked_startup_len}
use pg_prism.Proxy.Client.{
  accepts, Session, forwarding, handle_client, new_socket, connect_upstream, write_packet,
  write_both,
}
use pg_prism.Guardian.Query.{check_query}
use pg_prism.Proxy.Forward.{take_one}
use pg_prism.Proxy.Tasks
use pg_prism.Proxy.Tasks.{State, Reach, unmoved, later, forward}
use pg_prism.Tls.{Machine, TlsTools}
use pg_prism.Main.{accept_loop}
use pg_prism.Main.Startup.{start}
use pg_prism.Main.Program.{Connection, spawn_all, main}
use pg_prism.Main.Program.Whole.{Served, main-Served}

abbrev no_tools : TlsTools
no_tools = record {
  openssl = λ args files. (none, files);
  Identity = Unit;
  from_pkcs12 = λ bytes password. none;
  build = λ identity. none;
}

abbrev bare : Machine
bare = record { files = λ name. none; ran = [] }

abbrev plain_env : Env
plain_env name =
    if list_eq name (codes "TRUSTED_PROXIES")
    then some (codes "127.0.0.1")
    else if list_eq name (codes "SSL_ENABLED")
    then some (codes "no")
    else none

abbrev startup_bytes : Bytes
startup_bytes = 0 ∷ 3 ∷ 0 ∷ 0 ∷ (codes "user" ++ 0 ∷ codes "eve" ++ 0 ∷ 0 ∷ [])

-- A statement behind the startup message.
abbrev statement : Bytes
statement = b'Q' ∷ (to_be_bytes 8 ++ codes "go;\0")

abbrev opened : Outgoing
opened = new_socket (λ n. none)

abbrev through : Connection
through = record {
  peer_ip = v4 127 0 0 1;
  socket = record {
    chunks = codes "PROXY T 9.8.7.6\n" ∷ (to_be_bytes 18 ++ startup_bytes) ∷ statement ∷ [];
    ending = silent;
  };
  out = opened;
  now = record { hour = 12; minute = 0 };
  clock = 7;
  server = accepts 0 (λ n. none);
}

abbrev results : List (Option Connection)
results = some (record through { peer_ip = v4 10 0 0 1 }) ∷ none ∷ some through ∷ []

abbrev begun : Session
begun = record {
  client_in = buffered (record { chunks = statement ∷ []; ending = silent });
  client_out = opened;
  upstream = (write_packet opened (inject_ip_startup startup_bytes (codes "9.8.7.6"))).1;
  context = record { action = inspect; block_queries = []; block_tables = [] };
}

gets_through :
    get_elem? (main hosts no_tools (λ addr. true) plain_env none bare 100 results).outcomes 1
    ≡ some (forwarding begun)
unfolding main start spawn_all trusted_from_env parse entries_of split trim parse_entry list_eq
    ip_from_str limits_from_env load handle_client perform_handshake read_proxy_v1_header
    write_packet is_trusted any read_exact parse_header starts_with from_utf8_lossy read_packet
    to_be_bytes from_be_bytes is_supported_startup startup_major check_connection check_rules
    ips_match lists context_of on_time names_block_of write_both write_all checked_startup_len
    read_char read_ipv4_addr read_ipv6_addr read_number normalise to_ipv4_mapped should_log
    connect_upstream accept_loop
gets_through = refl

-- The statement goes on.
abbrev sent_on_run : (s : State) × Reach begun.context (Tasks.begin begun [] closed) s
unfolding take_one read_exact to_be_bytes from_be_bytes check_query write_packet write_both
    write_all
sent_on_run = (_, later unmoved (forward _ _ refl refl))

main-Served_example :
    Served hosts no_tools
      (λ addr. true)
      plain_env
      none
      bare
      results
      1
      begun
      sent_on_run.0.upstream.sent
unfolding write_packet write_both write_all
main-Served_example =
    main-Served hosts no_tools (λ addr. true) plain_env none bare 100 results 1 begun [] closed
      sent_on_run.0 gets_through (λ n k m failed later. absurd (cc failed)) sent_on_run.1
