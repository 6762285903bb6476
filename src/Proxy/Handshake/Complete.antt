-- ===== src/Proxy/Handshake/Complete.antt =====
-- `perform_handshake` of core/rust/src/proxy.rs on a client that follows the protocol.
use mathlib.Core.Path.{subst}
use pg_prism.Prelude.{
  List, ap, sym, ◌∙◌, length-append, inl, inr, ℕ, suc, ◌+◌, ◌<◌, true, ◌∷◌, ◌++◌, Option, ◌≡◌, refl,
  arith, length, append_assoc,
}
use pg_prism.Text.{Str, Bytes}
use pg_prism.Wire.{length-to_be_bytes, u32_size, to_be_bytes, from_be_bytes-to_be_bytes}
use pg_prism.Limits.{Limits}
use pg_prism.Protocol.{startup_major, is_supported_startup}
use pg_prism.Proxy.Stream.{Incoming, BufReader, buffered, into_inner, content, flatten, Outgoing}
use pg_prism.Proxy.Header.{ok}
use pg_prism.Proxy.Header.Words.{line_of, IsWord, IsPrinted}
use pg_prism.Proxy.Header.RoundTrip.{read_proxy_v1_header-Has_line_of}
use pg_prism.Proxy.Handshake.{
  TlsAcceptor, session, checked_startup_len, be_u32, read_packet, wants_session, request_of,
  negotiate, perform_handshake,
}
use pg_prism.Proxy.Handshake.Bounds.{FitsLimits}
use pg_prism.Proxy.Stream.Supply.{Supply}
use pg_prism.Proxy.Stream.Ahead.{Ahead, Stands, ahead_of}

-- What stands in front of a payload.
abbrev pub framed : Bytes → Bytes
framed payload = to_be_bytes (length payload + 4) ++ payload

checked-fits :
    (limits : Limits) (payload : Bytes)
    → FitsLimits limits payload
    → checked_startup_len (length payload + 4) limits ≡ ok (length payload)
unfolding checked_startup_len
checked-fits limits payload (four, fits) = ground (arith, four, fits)

pub be_u32-to_be_bytes : (n : ℕ) → n < u32_size → be_u32 (to_be_bytes n) ≡ n
unfolding to_be_bytes
be_u32-to_be_bytes n small = from_be_bytes-to_be_bytes n small

-- Where the reader goes on with a packet that fits, it is read, and no more than it.
pub read_packet-Has :
    (supply : Supply) (limits : Limits) (payload rest : Bytes) (reader : BufReader)
    → FitsLimits limits payload
    → length payload + 4 < u32_size
    → supply.Has (framed payload ++ rest) reader
    → (r : BufReader) × (read_packet limits reader ≡ ok (payload, r)) × supply.Has rest r
unfolding read_packet
read_packet-Has supply limits payload rest reader fits small has =
    let (r, prefix, behind) =
      supply.serve (to_be_bytes (length payload + 4)) (payload ++ rest) reader 4
        (length-to_be_bytes (length payload + 4))
        (subst (λ (b : Bytes). supply.Has b reader)
          (append_assoc (to_be_bytes (length payload + 4)) payload rest) has) in
    let (r', body, behind') = supply.serve payload rest r (length payload) refl behind in
    (
      r',
      rw
          (
            prefix,
            be_u32-to_be_bytes (length payload + 4) small,
            checked-fits limits payload fits,
            body,
          )
          refl,
      behind',
    )

-- A supported version is none of the other requests.
pub request_of-supported :
    (code : ℕ) → is_supported_startup code ≡ true → request_of code ≡ wants_session
unfolding is_supported_startup startup_major request_of
request_of-supported code supported = ground (arith, supported)

-- The loop ends with the first packet if it is a startup message.
negotiate-framed :
    (supply : Supply) (fuel : ℕ) (limits : Limits) (acceptor : Option TlsAcceptor) (client_ip : Str)
    (payload rest : Bytes) (reader : BufReader) (out : Outgoing)
    → FitsLimits limits payload
    → length payload + 4 < u32_size
    → is_supported_startup (be_u32 payload) ≡ true
    → supply.Has (framed payload ++ rest) reader
    → (r : BufReader) × (negotiate (suc fuel) limits acceptor client_ip reader out
        ≡ (ok (session (into_inner r) payload client_ip), out))
      × supply.Has rest r
unfolding negotiate
negotiate-framed supply fuel limits acceptor client_ip payload rest reader out fits small supported
      has =
    let (r, read, behind) = read_packet-Has supply limits payload rest reader fits small has in
    (r, rw (read, request_of-supported (be_u32 payload) supported) refl, behind)

-- Where something has been read, the buffer holds the rest of the piece in which it ended.
Ahead-of_Stands :
    (line payload rest : Bytes) (chunks : List Bytes) (r : BufReader)
    → flatten chunks ≡ line ++ b'\n' ∷ (payload ++ rest)
    → content r ≡ rest
    → Stands chunks r
    → Ahead chunks r.buffer r.chunks
unfolding content
Ahead-of_Stands line payload rest chunks r e behind (inr ahead) = ahead
Ahead-of_Stands line payload rest chunks r e behind (inl (all, none)) =
    let whole : flatten chunks ≡ rest =
      ap (λ (c : List Bytes). flatten c) (sym all)
      ∙ ap (λ (b : Bytes). b ++ flatten r.chunks) (sym none)
      ∙ behind in
    let lens : length rest ≡ length (line ++ b'\n' ∷ (payload ++ rest)) =
      ap (λ (b : Bytes). length b) (sym whole ∙ e) in
    absurd (
      omega
        (arith, lens, length-append line (b'\n' ∷ (payload ++ rest)), length-append payload rest))

-- A client behind a load balancer that sends its startup message at once: it is read, and what was
-- read ahead is the rest of the piece in which it ends.
pub perform_handshake-framed :
    (fuel : ℕ) (limits : Limits) (acceptor : Option TlsAcceptor) (family ip tail : Str)
    (payload rest : Bytes) (socket : Incoming) (out : Outgoing)
    → IsWord family
    → IsWord ip
    → IsPrinted tail
    → length (line_of family ip tail) < limits.max_proxy_header_len
    → FitsLimits limits payload
    → length payload + 4 < u32_size
    → is_supported_startup (be_u32 payload) ≡ true
    → flatten socket.chunks ≡ line_of family ip tail ++ b'\n' ∷ (framed payload ++ rest)
    → (r : BufReader) × (perform_handshake (suc fuel) limits acceptor socket out
        ≡ (ok (session (into_inner r) payload ip), out))
      × (content r ≡ rest)
      × Ahead socket.chunks r.buffer r.chunks
unfolding perform_handshake content
perform_handshake-framed fuel limits acceptor family ip tail payload rest socket out fam word
      printed short fits small supported e =
    let supply = ahead_of socket.chunks socket.ending in
    let (r, header, has) =
      read_proxy_v1_header-Has_line_of supply limits.max_proxy_header_len family ip tail
        (framed payload ++ rest) (buffered socket) fam word printed short
        (e, refl, inl (refl, refl)) in
    let (r', done, (behind, same, stands)) =
      negotiate-framed supply fuel limits acceptor ip payload rest r out fits small supported has in
    (
      r',
      rw (header, done) refl,
      behind,
      Ahead-of_Stands (line_of family ip tail) (framed payload) rest socket.chunks r' e behind
          stands,
    )
