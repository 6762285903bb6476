-- ===== src/Proxy/Header.antt =====
-- `read_proxy_v1_header` of core/rust/src/proxy.rs.
pub mod Line
pub mod Words
pub mod RoundTrip
use pg_prism.Prelude.{
  ℕ, zero, suc, ◌+◌, ◌-◌, Bool, true, false, not, List, [], ◌∷◌, ◌++◌, Option, none, some, leb,
  ◌==◌, if◌then◌else◌, case_option, length, get_elem?, is_empty,
}
use pg_prism.Text.{Str, Bytes, codes, trim, starts_with}
use pg_prism.Text.Split.{split}
use pg_prism.Text.Utf8.{from_utf8_lossy}
use pg_prism.Proxy.Stream.{End, BufReader, ReadResult, got, ended, read_exact}

-- Why a client is told off: `HandshakeError::Protocol`, by its message.
pub data ProtocolError : Type 0 where
  packet_too_short : ℕ → ProtocolError
  packet_too_long : (len limit : ℕ) → ProtocolError
  header_too_long : ℕ → ProtocolError
  not_a_header : ProtocolError
  malformed_header : Str → ProtocolError

-- A step of the handshake: a value, a `HandshakeError::Protocol`, or `HandshakeError::Io`. What a
-- silent client leaves hanging is cut off by the deadline.
pub data Step {ℓ} (A : Type ℓ) : Type ℓ where
  ok : A → Step A
  protocol : ProtocolError → Step A
  io : Step A
  timed_out : Step A

infixl 5 ◌>>=◌
abbrev pub ◌>>=◌ {ℓ κ} : {A : Type ℓ} {B : Type κ} → Step A → (A → Step B) → Step B
ok a >>= f = f a
protocol e >>= f = protocol e
io >>= f = io
timed_out >>= f = timed_out

abbrev pub stopped {ℓ} : {A : Type ℓ} → End → Step A
stopped End.closed = io
stopped End.silent = timed_out

abbrev pub of_read : ReadResult → Step (Bytes × BufReader)
of_read (got bytes r) = ok (bytes, r)
of_read (ended e) = stopped e

-- `byte == b'\n'`, on the one byte that was read.
abbrev pub is_newline : Bytes → Bool
is_newline [] = false
is_newline (b ∷ bs) = b == b'\n'

-- The loop, with the header so far. The fuel is one more than the longest header.
pub read_line : ℕ → ℕ → Bytes → BufReader → Step (Bytes × BufReader)
read_line zero max_len header reader = protocol (header_too_long max_len)
read_line (suc fuel) max_len header reader = of_read (read_exact reader 1) >>= λ r.
    let rest = read_line fuel max_len (header ++ r.0) r.1 in
    if is_newline r.0
    then ok (header ++ r.0, r.1)
    else if leb max_len (length (header ++ r.0))
    then protocol (header_too_long max_len)
    else rest

-- `.nth(2).unwrap_or("")`
abbrev pub third_word : List Str → Str
third_word words = case_option (get_elem? words 2) [] (λ w. w)

-- The address in a header line.
unfoldable pub parse_header : Bytes → Step Str
parse_header header =
    let header_str = from_utf8_lossy header in
    let client_ip = third_word (split b' ' (trim header_str)) in
    if not (starts_with header_str (codes "PROXY"))
    then protocol not_a_header
    else if is_empty client_ip
    then protocol (malformed_header (trim header_str))
    else ok client_ip

-- The client's address, and the reader behind the header.
unfoldable pub read_proxy_v1_header : ℕ → BufReader → Step (Str × BufReader)
unfolding read_line
read_proxy_v1_header max_len reader = read_line (suc max_len) max_len [] reader >>= λ r.
    parse_header r.0 >>= λ client_ip. ok (client_ip, r.1)
