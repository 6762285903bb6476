-- ===== src/Lib.antt =====
-- PG-Prism: a TCP proxy in front of PostgreSQL. A load balancer that it trusts announces each client
-- with a PROXY header; the proxy settles TLS, reads the startup message, asks Guardian's rules,
-- writes the client's address into the application name, and forwards what follows.
--
-- Parts, and the files that model them. A file's children state and prove what holds of it.
-- - Prelude and its children: shared names, Boolean tests on numbers, lists measured by numbers.
-- - Text, Text/Split, Text/Decimal, Text/Utf8: what the program uses of Rust's `str`. A text is the
--   list of its code points, and bytes are numbers. `as_bytes` is UTF-8, and `from_utf8_lossy` puts
--   U+FFFD for each maximal invalid piece.
-- - Wire: 32-bit integers, big-endian; `as u32` wraps.
-- - Net: `IpAddr`, its parser as documented for `std::net`, and IPv4-mapped addresses. Net/Cidr is
--   the interface to the `cidr` crate, with the two laws of its documentation that are used;
--   Net/Cidr/Hosts is an instance for concrete runs.
-- - Protocol: core/rust/src/protocol.rs, all functions under their names. The loops over indices are
--   recursions on the list of pieces: `truncate_from`, `copy_params`, `find_user_db`. Protocol/Server,
--   Protocol/Startup/ServerReads and Protocol/Startup/Asked are no code of the repository but what
--   PostgreSQL documents of the other side: how it stores an application name, how it reads a startup
--   message, and for which user and database it takes it to ask.
-- - Guardian/Time, Guardian/Rules, Guardian/Token, Guardian/Query: core/rust/src/guardian.rs. The
--   time of day is an argument, and so is what the YAML reader made of the file.
-- - Limits: core/rust/src/limits.rs. The environment is a function.
-- - Tls: core/rust/src/tls.rs. The files, each there or not and readable or not, and the commands
--   that were run are passed on as a record.
-- - Trust: core/rust/src/trust.rs. The clock is an argument of `should_log`; the lock and the atomic
--   counter are fields of a record that is passed on, since every access holds the lock. Trust/Forms has
--   the forms of a peer's address by the layout of RFC 4291.
-- - Proxy/Stream: a socket as the pieces in which bytes arrive and how they end, `BufReader` with
--   what it has read ahead, and writes that may fail after some of their bytes. Proxy/Stream/Waiting
--   is a client that waits for answers, Proxy/Stream/Supply what lemmas on reads need of either, and
--   Proxy/Stream/Ahead how far ahead a reader has read.
-- - Proxy/Header, Proxy/Handshake, Proxy/Client: `read_proxy_v1_header`, `perform_handshake` and
--   `handle_client` of core/rust/src/proxy.rs, the last up to the forwarding.
-- - Proxy/Forward: the tasks `client_to_server` and `server_to_client` at the end of
--   `handle_client`, each by itself; Proxy/Forward/Reference is what the first makes of the client's
--   bytes, without sockets and reads, and Proxy/Forward/Failing sets a server that fails beside one
--   that does not.
-- - Proxy/WholeRelay: `handle_client` and then `client_to_server`, on a client that follows the protocol.
-- - Proxy/Tasks: both tasks in turns, as a step relation on the sockets, the lock on the client's
--   socket, and where each task stands, with the drain. `take_one` of Proxy/Forward is a step of it.
--   Proxy/Tasks/Upstream and Proxy/Tasks/Downstream say what each socket has been sent whichever
--   writes fail, and Proxy/Tasks/Locking who holds the lock. Proxy/Tasks/WholeSession puts `handle_client` and the tasks together.
-- - Main/Startup, Main, Main/Program: core/rust/src/main.rs, the configuration that it starts with and
--   the binding of the listener, its accept loop over the results of `accept`, and both together with a
--   task of `handle_client` for each socket. Main/Startup/Sources says where the configuration comes
--   from. The tasks are listed in the order in which they ask the throttle, the only thing they share
--   that changes.
--
-- How they meet: `handle_client` asks `is_trusted` of Trust, runs `perform_handshake` under the
-- limits, gives user and database of `extract_user_db` and the header's address to
-- `check_connection`, and sends what `inject_ip_startup` makes of the startup message. A text
-- handed on as the client's address is one that `ip_from_str` reads, or Guardian denies it; that is
-- where the address gets its form from.
--
-- Parameters: the `cidr` crate, by the record `CidrCrate`; the TLS acceptor, any function from what
-- arrives on the socket to what arrives inside the session; what YAML reading gives; the clock and
-- the time of day; which addresses can be bound; how connecting and writing end; `openssl`, and what
-- native-tls makes of an archive and of an identity, by the record `TlsTools`.
--
-- Fuel: `negotiate` runs on fuel, one for each packet, and a packet takes eight bytes at least, so
-- more fuel than bytes is enough. `read_line` has one more than the longest header, which its own
-- test on the length ends before. `client_to_server` takes one for each message and one for its end,
-- so two more than bytes are enough, and `copy_blind` one for each piece, of a byte at least. All else
-- is structural.
--
-- Timeouts: a client that falls silent in the handshake ends it as timed out. A client that the
-- deadline cuts off while it goes on sending is one of whom what arrived by then is the stream, and
-- silence behind it.
--
-- Not modelled: log texts and `Display`; in `handle_client`, a socket whose own peer address cannot
-- be had, which ends the task at once, and the options that are set on the client's socket; the
-- Python variant, benches, scripts and tests.
pub mod Prelude
pub mod Text
pub mod Wire
pub mod Net
pub mod Protocol
pub mod Guardian
pub mod Limits
pub mod Tls
pub mod Trust
pub mod Proxy
pub mod Main
