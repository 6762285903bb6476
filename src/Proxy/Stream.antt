-- ===== src/Proxy/Stream.antt =====
-- Sockets as the proxy sees them: what arrives, in the pieces in which it is read, the buffered
-- reader over it, and what is sent.
pub mod Reading
pub mod Waiting
pub mod Supply
pub mod Ahead
use pg_prism.Prelude.{
  ℕ, zero, suc, ◌+◌, ◌-◌, Bool, true, false, List, [], ◌∷◌, ◌++◌, Option, none, some, leb,
  if◌then◌else◌, case_option, length, take, drop,
}
use pg_prism.Text.{Bytes}

-- How a stream goes on behind its last byte: it is closed, or nothing more comes in time.
pub data End : Type 0 where
  closed silent : End

-- What a socket delivers: each piece is the result of one read.
pub record Incoming : Type 0 where
  pub chunks : List Bytes
  pub ending : End

-- `BufReader`: bytes that were read from the socket and not yet asked for, and the socket.
pub record BufReader : Type 0 where
  pub buffer : Bytes
  pub chunks : List Bytes
  pub ending : End

-- `BufReader::new(socket)`
abbrev pub buffered : Incoming → BufReader
buffered i = record { buffer = []; chunks = i.chunks; ending = i.ending }

-- `reader.into_inner()`: the socket. What the buffer still holds is lost.
abbrev pub into_inner : BufReader → Incoming
into_inner r = record { chunks = r.chunks; ending = r.ending }

-- What a read gives: the bytes and the reader behind them, or how the stream ended before them.
pub data ReadResult : Type 0 where
  got : Bytes → BufReader → ReadResult
  ended : End → ReadResult

abbrev pub behind : Bytes → ReadResult → ReadResult
behind bytes (got more r) = got (bytes ++ more) r
behind bytes (ended e) = ended e

-- `read_exact` of `n` bytes, from a buffer and the pieces behind it.
pub read_from : Bytes → List Bytes → End → ℕ → ReadResult
read_from buffer [] ending n =
    if leb n (length buffer)
    then got (take n buffer) (record { buffer = drop n buffer; chunks = []; ending = ending })
    else ended ending
read_from buffer (chunk ∷ chunks) ending n =
    let more = read_from chunk chunks ending (n - length buffer) in
    if leb n (length buffer)
    then got (take n buffer)
        (record { buffer = drop n buffer; chunks = chunk ∷ chunks; ending = ending })
    else behind buffer more

unfoldable pub read_exact : BufReader → ℕ → ReadResult
unfolding read_from
read_exact r n = read_from r.buffer r.chunks r.ending n

-- All that the reader can still give.
unfoldable pub flatten : List Bytes → Bytes
flatten [] = []
flatten (c ∷ cs) = c ++ flatten cs

unfoldable pub content : BufReader → Bytes
unfolding flatten
content r = r.buffer ++ flatten r.chunks

-- What is sent on a socket. The `i`-th write succeeds, or fails after some of its bytes.
pub record Outgoing : Type 0 where
  pub sent : Bytes
  pub writes : ℕ
  pub fate : ℕ → Option ℕ

-- `write_all`: did it succeed, and the socket behind it.
unfoldable pub write_all : Outgoing → Bytes → Bool × Outgoing
write_all out bytes =
    case_option (out.fate out.writes)
      (true, record out { sent = out.sent ++ bytes; writes = out.writes + 1 })
      (λ k. (false, record out { sent = out.sent ++ take k bytes; writes = out.writes + 1 }))
