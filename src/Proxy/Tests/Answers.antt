-- ===== src/Proxy/Tests/Answers.antt =====
-- A run of `handle_client` on a client that is refused GSSAPI and granted TLS.
use pg_prism.Prelude.{
  true, any, list_eq, List, [], ◌∷◌, ◌++◌, none, some, ◌≡◌, ◌≢◌, refl, arith, inl,
}
use pg_prism.Text.{Bytes, codes}
use pg_prism.Wire.{to_be_bytes, from_be_bytes}
use pg_prism.Net.{ip_from_str, read_char, read_ipv4_addr, read_ipv6_addr, read_number}
use pg_prism.Net.Cidr.Hosts.{hosts}
use pg_prism.Limits.{default_limits}
use pg_prism.Trust.{default_log, is_trusted}
use pg_prism.Guardian.Rules.{
  deny, check_connection, check_rules, ips_match, lists, context_of, on_time, names_block_of,
}
use pg_prism.Protocol.{ssl_request, gssenc_request, is_supported_startup, startup_major}
use pg_prism.Proxy.Stream.{Incoming, closed, flatten}
use pg_prism.Proxy.Handshake.Complete.{framed}
use pg_prism.Proxy.Header.Words.{line_of}
use pg_prism.Proxy.Handshake.Asking.{IsStartup}
use pg_prism.Proxy.Handshake.Answered.{Greeting, Greets}
use pg_prism.Proxy.Client.{accepts, Session, forwarding, ProxyConfig, handle_client}
use pg_prism.Proxy.Client.Complete.{context_for}
use pg_prism.Proxy.Client.Greeted.{hello_of, Answered, handle_client-answers}
use pg_prism.Proxy.Forward.{Relay, half_closed, client_to_server}
use pg_prism.Proxy.Forward.Relayed.{Message}
use pg_prism.Proxy.Forward.Messages.{encode_all}
use pg_prism.Proxy.WholeRelay.{relay_of_session, Relayed, handle_client-Relayed}
use pg_prism.Proxy.Tests.{startup_bytes, config, noon, peer, nothing_sent}

abbrev secured : ProxyConfig hosts
secured = record config { tls_acceptor = some (λ socket. some socket) }

abbrev statements : List Message
statements = record { tag = b'Q'; body = codes "select 1" } ∷ record { tag = b'X'; body = [] } ∷ []

abbrev greeting : Greeting
greeting = record {
  family = codes "TCP4";
  ip = codes "9.8.7.6";
  tail = codes "10.0.0.1 4711 5432";
  payload = startup_bytes;
  codes = gssenc_request ∷ [];
  encrypted = true;
  first = framed (to_be_bytes gssenc_request);
  others = framed (to_be_bytes ssl_request) ∷ framed startup_bytes ∷ encode_all statements ∷ [];
  stream = record { chunks = encode_all statements ∷ []; ending = closed };
}

abbrev greeting_line : Bytes
greeting_line = line_of greeting.family greeting.ip greeting.tail

-- The header comes in a piece of its own.
abbrev greeting_socket : Incoming
greeting_socket = record {
  chunks = (greeting_line ++ b'\n' ∷ []) ∷ framed (to_be_bytes gssenc_request) ∷ greeting.others;
  ending = closed;
}

greeting-IsStartup : IsStartup default_limits startup_bytes
unfolding is_supported_startup startup_major from_be_bytes
greeting-IsStartup = record {
  fits = (omega arith, omega arith);
  small = omega arith;
  supported = refl;
}

greeting-Greets : Greets default_limits secured.tls_acceptor greeting_socket greeting
unfolding to_be_bytes flatten
greeting-Greets = record {
  family = ground arith;
  ip = ground arith;
  tail = ground arith;
  short = omega arith;
  startup = greeting-IsStartup;
  sends = record {
    pieces = (greeting_line ++ b'\n' ∷ []) ∷ framed (to_be_bytes gssenc_request) ∷ [];
    are = (omega arith, (omega arith, tt));
    chunks_are = refl;
    first_is = refl;
  };
  asks = (
    refl,
    inl refl,
    (
      framed (to_be_bytes ssl_request),
      framed startup_bytes ∷ encode_all statements ∷ [],
      record {
        pieces = framed (to_be_bytes ssl_request) ∷ [];
        are = (omega arith, tt);
        chunks_are = refl;
        first_is = refl;
      },
      record {
        tls = λ socket. some socket;
        offered = refl;
        asked = refl;
        inside = record {
          chunks = framed startup_bytes ∷ encode_all statements ∷ [];
          ending = closed;
        };
        accepted = refl;
        behind = encode_all statements ∷ [];
        sends = record {
          pieces = framed startup_bytes ∷ [];
          are = (omega arith, tt);
          chunks_are = refl;
          first_is = refl;
        };
        stream_is = refl;
      },
    ),
  );
}

greeting_trusted : is_trusted hosts secured.trusted peer ≡ true
unfolding is_trusted any
greeting_trusted = refl

greeting_let_in : (context_for hosts secured noon peer (hello_of greeting)).action ≢ deny
unfolding check_connection ip_from_str check_rules ips_match lists context_of on_time names_block_of
    list_eq read_char read_ipv4_addr read_ipv6_addr read_number
greeting_let_in e = cc e

handle_client-answers_example :
    (s : Session) × ((handle_client hosts 2 secured noon
        (accepts 0 (λ n. none))
        default_log
        0
        peer
        greeting_socket
        nothing_sent).0
      ≡ forwarding s)
    × Answered hosts secured noon peer greeting (λ n. none) nothing_sent s
handle_client-answers_example =
    handle_client-answers hosts secured noon peer 2 0 (λ n. none) default_log 0 greeting_socket
      nothing_sent greeting (omega arith) greeting_trusted (λ n. refl) greeting-Greets
      greeting_let_in (record { in_time = refl; prefix = refl; body = refl })

handle_client-Relayed_example :
    (s : Session) × ((handle_client hosts 2 secured noon
        (accepts 0 (λ n. none))
        default_log
        0
        peer
        greeting_socket
        nothing_sent).0
      ≡ forwarding s)
    × ((last : Relay) × (client_to_server 3 s.context (relay_of_session s) ≡ (half_closed, last))
        × Relayed hosts secured noon peer greeting statements nothing_sent last)
unfolding to_be_bytes flatten
handle_client-Relayed_example =
    handle_client-Relayed hosts secured noon peer 2 0 3 (λ n. none) default_log 0 greeting_socket
      nothing_sent greeting statements (omega arith) (omega arith) greeting_trusted (λ n. refl)
      greeting-Greets greeting_let_in refl (λ n. refl) (omega arith, (omega arith, tt)) refl refl
