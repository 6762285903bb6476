-- ===== src/Proxy/Handshake/Asking.antt =====
-- `perform_handshake` of core/rust/src/proxy.rs on a client that asks for encryption first, as often
-- as it is refused, and waits for each answer.
use mathlib.Core.Path.{subst}
use pg_prism.Prelude.{
  ℕ, suc, ◌+◌, ◌≤◌, ◌<◌, Bool, true, false, List, [], ◌∷◌, ◌++◌, Option, none, some, ◌≡◌, ◌⊎◌, inl,
  inr, refl, sym, arith, length, append-nil, case_option,
}
use pg_prism.Text.{Str, Bytes}
use pg_prism.Wire.{u32_size, to_be_bytes, length-to_be_bytes}
use pg_prism.Limits.{Limits}
use pg_prism.Protocol.{ssl_request, gssenc_request, is_supported_startup}
use pg_prism.Proxy.Stream.{End, Incoming, BufReader, buffered, into_inner, flatten, Outgoing}
use pg_prism.Proxy.Stream.Waiting.{ArePieces, Until, into_inner-Until}
use pg_prism.Proxy.Stream.Supply.{before}
use pg_prism.Proxy.Forward.Copy.{Works}
use pg_prism.Proxy.Header.{ok}
use pg_prism.Proxy.Handshake.{
  TlsAcceptor, HandshakeOutcome, session, be_u32, read_packet, request_of, read_inside_tls,
  negotiate, by_request, Sends,
}
use pg_prism.Proxy.Handshake.Bounds.{FitsLimits}
use pg_prism.Proxy.Handshake.Complete.{framed, read_packet-Has, request_of-supported}

-- A startup message that keeps to the limits and is of the version that is supported.
pub record IsStartup (limits : Limits) (payload : Bytes) : Type 0 where
  pub fits : FitsLimits limits payload
  pub small : length payload + 4 < u32_size
  pub supported : is_supported_startup (be_u32 payload) ≡ true

-- Pieces and what is behind them: where a stream goes on.
pub record Split (chunks : List Bytes) (first : Bytes) (others : List Bytes) : Type 0 where
  pub pieces : List Bytes
  pub are : ArePieces pieces
  pub chunks_are : chunks ≡ pieces ++ others
  pub first_is : flatten pieces ≡ first

module _ (limits : Limits) (acceptor : Option TlsAcceptor) (payload : Bytes) where
  -- A request that is refused: encryption by GSSAPI, or by TLS where none is offered.
  abbrev pub Refused : ℕ → Type 0
  Refused code = (code ≡ gssenc_request) ⊎ ((code ≡ ssl_request) × (acceptor ≡ none))

  -- The end of the asking: the startup message in the open, or the request for TLS that is granted,
  -- with the startup message inside the session. `stream` is what is left behind it.
  pub record Encrypts (ending : End) (first : Bytes) (others : List Bytes) (stream : Incoming)
      : Type 0 where
    pub tls : TlsAcceptor
    pub offered : acceptor ≡ some tls
    pub asked : first ≡ framed (to_be_bytes ssl_request)
    pub inside : Incoming
    pub accepted : tls (record { chunks = others; ending = ending }) ≡ some inside
    pub behind : List Bytes
    pub sends : Split inside.chunks (framed payload) behind
    pub stream_is : stream ≡ record { chunks = behind; ending = inside.ending }

  abbrev pub SendsStartup : Bool → End → Bytes → List Bytes → Incoming → Type 0
  SendsStartup true ending first others stream = Encrypts ending first others stream
  SendsStartup false ending first others stream =
      (first ≡ framed payload) × (stream ≡ record { chunks = others; ending = ending })

  -- The requests that are refused, each behind the answer to the one before it, and their end.
  abbrev pub Asks : List ℕ → Bool → End → Bytes → List Bytes → Incoming → Type 0
  Asks [] encrypted ending first others stream = SendsStartup encrypted ending first others stream
  Asks (code ∷ codes) encrypted ending first others stream =
      (first ≡ framed (to_be_bytes code))
      × Refused code
      × ((next : Bytes) × (others' : List Bytes) × Split others next others'
          × Asks codes encrypted ending next others' stream)

  -- The answers of the proxy.
  abbrev pub answers_to : List ℕ → Bool → Bytes
  answers_to [] true = b'S' ∷ []
  answers_to [] false = []
  answers_to (code ∷ codes) encrypted = b'N' ∷ answers_to codes encrypted

  -- The handshake is through, and these are the answers that were sent.
  abbrev pub Through : Str → Outgoing → Incoming → Bytes → Sends HandshakeOutcome → Type 0
  Through client_ip out stream answers result =
      (out' : Outgoing) × (result ≡ (ok (session stream payload client_ip), out'))
      × (out'.sent ≡ out.sent ++ answers)
      × Works out'

  -- Where the other side waits behind a packet, nothing of what it sends later is lost.
  pub read_whole :
      (bytes : Bytes) (others : List Bytes) (ending : End) (reader : BufReader)
      → FitsLimits limits bytes
      → length bytes + 4 < u32_size
      → Until others ending (framed bytes) reader
      → (r : BufReader) × (read_packet limits reader ≡ ok (bytes, r))
        × (into_inner r ≡ record { chunks = others; ending = ending })
  read_whole bytes others ending reader fits small until =
      let (r, read, behind) =
        read_packet-Has (before others ending) limits bytes [] reader fits small (
          subst (λ (b : Bytes). Until others ending b reader) (sym (append-nil (framed bytes)))
            until) in
      (r, read, into_inner-Until others ending r behind)

  pub Until-buffered :
      (others : List Bytes) (ending : End) (next : Bytes) (others' : List Bytes)
      → Split others next others'
      → Until others' ending next (buffered (record { chunks = others; ending = ending }))
  Until-buffered others ending next others' split = record {
    pieces = split.pieces;
    are = split.are;
    chunks = split.chunks_are;
    bytes = split.first_is;
    same = refl;
  }

  pub refused_lem {ℓ} :
      {A : Type ℓ} (code : ℕ) (refuse cancelled begun : A) (secure : TlsAcceptor → A)
      → Refused code
      → by_request (request_of code) (case_option acceptor refuse secure) cancelled refuse begun
        ≡ refuse
  unfolding request_of
  refused_lem code refuse cancelled begun secure (inl gssapi) = rw gssapi refl
  refused_lem code refuse cancelled begun secure (inr (ssl, bare)) = rw (ssl, bare) refl

  pub code_small : (code : ℕ) → Refused code → code < u32_size
  code_small code (inl gssapi) = omega (arith, gssapi)
  code_small code (inr (ssl, bare)) = omega (arith, ssl)

  module _ (room : 8 ≤ limits.max_startup_len) (client_ip : Str) where
    pub request_fits : (code : ℕ) → FitsLimits limits (to_be_bytes code)
    request_fits code =
        let four = length-to_be_bytes code in (omega (arith, four), omega (arith, four, room))

    pub request_small : (code : ℕ) → length (to_be_bytes code) + 4 < u32_size
    request_small code = let four = length-to_be_bytes code in omega (arith, four)

    -- The startup message in the open.
    pub startup-Through :
        (fuel : ℕ) (ending : End) (others : List Bytes) (reader : BufReader) (out : Outgoing)
        → IsStartup limits payload
        → Works out
        → Until others ending (framed payload) reader
        → Through client_ip out
            (record { chunks = others; ending = ending })
            []
            (negotiate (suc fuel) limits acceptor client_ip reader out)
    unfolding negotiate
    startup-Through fuel ending others reader out is works until =
        let (r, read, left) = read_whole payload others ending reader is.fits is.small until in
        (
          out,
          rw (read, request_of-supported (be_u32 payload) is.supported, left) refl,
          sym (append-nil out.sent),
          works,
        )

    -- The startup message inside the session.
    pub inside-Through :
        (tls : TlsAcceptor) (socket inside : Incoming) (behind : List Bytes) (out : Outgoing)
        → IsStartup limits payload
        → Works out
        → tls socket ≡ some inside
        → Split inside.chunks (framed payload) behind
        → read_inside_tls limits tls client_ip socket out ≡ (
          ok (session (record { chunks = behind; ending = inside.ending }) payload client_ip),
          out,
        )
    unfolding read_inside_tls
    inside-Through tls socket inside behind out is works accepted sends =
        let (r, read, left) =
          read_whole payload behind inside.ending (buffered inside) is.fits is.small
            (Until-buffered inside.chunks inside.ending (framed payload) behind sends) in
        rw (accepted, read, left) refl
