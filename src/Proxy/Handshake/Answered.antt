-- ===== src/Proxy/Handshake/Answered.antt =====
-- The whole of `perform_handshake` of core/rust/src/proxy.rs on a client that asks and waits.
use mathlib.Core.Path.{subst}
use pg_prism.Prelude.{
  ℕ, zero, suc, ◌≤◌, ◌<◌, Bool, true, false, List, [], ◌∷◌, ◌++◌, Option, some, ◌≡◌, refl, sym, ap,
  ◌∙◌, arith, length, append_assoc, case_option,
}
use pg_prism.Text.{Str, Bytes}
use pg_prism.Wire.{to_be_bytes}
use pg_prism.Limits.{Limits}
use pg_prism.Protocol.{ssl_request}
use pg_prism.Proxy.Stream.{End, Incoming, BufReader, buffered, Outgoing}
use pg_prism.Proxy.Stream.Waiting.{Until}
use pg_prism.Proxy.Stream.Supply.{before}
use pg_prism.Proxy.Forward.Copy.{Works, write_all-Sent}
use pg_prism.Proxy.Header.Words.{line_of, IsWord, IsPrinted}
use pg_prism.Proxy.Header.RoundTrip.{read_proxy_v1_header-Has_line_of}
use pg_prism.Proxy.Handshake.{TlsAcceptor, request_of, negotiate, by_request, perform_handshake}
use pg_prism.Proxy.Handshake.Complete.{framed, be_u32-to_be_bytes}
use pg_prism.Proxy.Handshake.Asking.{
  IsStartup, Split, Refused, Encrypts, Asks, answers_to, Through, read_whole, Until-buffered,
  refused_lem, code_small, request_fits, request_small, startup-Through, inside-Through,
}

module _ (limits : Limits) (acceptor : Option TlsAcceptor) (payload : Bytes)
    (is : IsStartup limits payload) (room : 8 ≤ limits.max_startup_len) (client_ip : Str) where
  abbrev Gets : Outgoing → Incoming → Bytes → ℕ → BufReader → Type 0
  Gets out stream answers fuel reader =
      Through limits acceptor payload client_ip out stream answers
        (negotiate fuel limits acceptor client_ip reader out)

  granted_lem {ℓ} :
      {A : Type ℓ} (refuse cancelled begun : A) (secure : TlsAcceptor → A) (tls : TlsAcceptor)
      → acceptor ≡ some tls
      → by_request
          (request_of ssl_request)
          (case_option acceptor refuse secure)
          cancelled
          refuse
          begun
        ≡ secure tls
  unfolding request_of
  granted_lem refuse cancelled begun secure tls offered = rw offered refl

  Encrypts-Through :
      (fuel : ℕ) (ending : End) (first : Bytes) (others : List Bytes) (stream : Incoming)
      (reader : BufReader) (out : Outgoing)
      → Works out
      → Until others ending first reader
      → Encrypts limits acceptor payload ending first others stream
      → Gets out stream (b'S' ∷ []) (suc fuel) reader
  unfolding negotiate
  Encrypts-Through fuel ending first others stream reader out works until enc =
      let (r, read, left) =
        read_whole limits acceptor payload (to_be_bytes ssl_request) others ending reader
          (request_fits limits acceptor payload room client_ip ssl_request)
          (request_small limits acceptor payload room client_ip ssl_request)
          (subst (λ (b : Bytes). Until others ending b reader) enc.asked until) in
      let (out', wrote, sent, works') = write_all-Sent out (b'S' ∷ []) works in
      (
        out',
        rw
            (
              read,
              be_u32-to_be_bytes ssl_request (omega arith),
              granted_lem _ _ _ _ enc.tls enc.offered,
              wrote,
              left,
              inside-Through limits acceptor payload room client_ip enc.tls _ enc.inside enc.behind
                  out' is works' enc.accepted enc.sends,
              enc.stream_is,
            )
            refl,
        sent,
        works',
      )

  Refused-Through :
      (fuel code : ℕ) (ending : End) (next : Bytes) (others others' : List Bytes)
      (stream : Incoming) (answers : Bytes) (reader : BufReader) (out : Outgoing)
      → Works out
      → Until others ending (framed (to_be_bytes code)) reader
      → Refused limits acceptor payload code
      → Split others next others'
      → ((reader : BufReader) (out : Outgoing)
          → Works out
          → Until others' ending next reader
          → Gets out stream answers fuel reader)
      → Gets out stream (b'N' ∷ answers) (suc fuel) reader
  unfolding negotiate
  Refused-Through fuel code ending next others others' stream answers reader out works until refused
        split then =
      let (r, read, left) =
        read_whole limits acceptor payload (to_be_bytes code) others ending reader
          (request_fits limits acceptor payload room client_ip code)
          (request_small limits acceptor payload room client_ip code) until in
      let (out', wrote, sent, works') = write_all-Sent out (b'N' ∷ []) works in
      let (out'', done, sent'', works'') =
        then (buffered (record { chunks = others; ending = ending })) out' works'
          (Until-buffered limits acceptor payload others ending next others' split) in
      (
        out'',
        rw
            (
              read,
              be_u32-to_be_bytes code (code_small limits acceptor payload code refused),
              refused_lem limits acceptor payload code _ _ _ _ refused,
              wrote,
              left,
            )
            done,
        sent''
            ∙ (ap (λ (b : Bytes). b ++ answers) sent ∙ append_assoc out.sent (b'N' ∷ []) answers),
        works'',
      )

  negotiate-Through :
      (codes : List ℕ) (encrypted : Bool) (fuel : ℕ) (ending : End) (first : Bytes)
      (others : List Bytes) (stream : Incoming) (reader : BufReader) (out : Outgoing)
      → length codes < fuel
      → Works out
      → Until others ending first reader
      → Asks limits acceptor payload codes encrypted ending first others stream
      → Gets out stream (answers_to limits acceptor payload codes encrypted) fuel reader
  negotiate-Through codes encrypted zero ending first others stream reader out enough works until
        asks =
      absurd (omega (arith, enough))
  negotiate-Through [] true (suc fuel) ending first others stream reader out enough works until
        asks =
      Encrypts-Through fuel ending first others stream reader out works until asks
  negotiate-Through [] false (suc fuel) ending first others stream reader out enough works until
        (sends, left) =
      subst (λ (i : Incoming). Gets out i [] (suc fuel) reader) (sym left)
        (startup-Through limits acceptor payload room client_ip fuel ending others reader out is
          works (subst (λ (b : Bytes). Until others ending b reader) sends until))
  negotiate-Through (code ∷ codes) encrypted (suc fuel) ending first others stream reader out enough
        works until (asked, refused, (next, others', split, asks)) =
      Refused-Through fuel code ending next others others' stream
        (answers_to limits acceptor payload codes encrypted) reader out works
        (subst (λ (b : Bytes). Until others ending b reader) asked until) refused split
        (λ reader out works until.
          negotiate-Through codes encrypted fuel ending next others' stream reader out
            (omega (arith, enough)) works until asks)

-- A client behind a load balancer: the header, its requests for encryption, and its startup message;
-- `first` is what it sends before it waits for the first time, and `stream` what it sends behind
-- its startup message.
pub record Greeting : Type 0 where
  pub family : Str
  pub ip : Str
  pub tail : Str
  pub payload : Bytes
  pub codes : List ℕ
  pub encrypted : Bool
  pub first : Bytes
  pub others : List Bytes
  pub stream : Incoming

-- It keeps to the protocol and to the limits, and waits for each answer.
pub record Greets (limits : Limits) (acceptor : Option TlsAcceptor) (socket : Incoming)
    (g : Greeting) : Type 0 where
  pub family : IsWord g.family
  pub ip : IsWord g.ip
  pub tail : IsPrinted g.tail
  pub short : length (line_of g.family g.ip g.tail) < limits.max_proxy_header_len
  pub startup : IsStartup limits g.payload
  pub sends : Split socket.chunks (line_of g.family g.ip g.tail ++ b'\n' ∷ g.first) g.others
  pub asks :
      Asks limits acceptor g.payload g.codes g.encrypted socket.ending g.first g.others g.stream

room_for_requests :
    (limits : Limits) (payload : Bytes) → IsStartup limits payload → 8 ≤ limits.max_startup_len
room_for_requests limits payload is = let (four, fits) = is.fits in omega (arith, four, fits)

pub perform_handshake-Through :
    (limits : Limits) (acceptor : Option TlsAcceptor) (socket : Incoming) (g : Greeting) (fuel : ℕ)
    (out : Outgoing)
    → length g.codes < fuel
    → Works out
    → Greets limits acceptor socket g
    → Through limits acceptor g.payload g.ip out g.stream
        (answers_to limits acceptor g.payload g.codes g.encrypted)
        (perform_handshake fuel limits acceptor socket out)
unfolding perform_handshake
perform_handshake-Through limits acceptor socket g fuel out enough works greets =
    let room = room_for_requests limits g.payload greets.startup in
    let (r, header, until) =
      read_proxy_v1_header-Has_line_of (before g.others socket.ending) limits.max_proxy_header_len
        g.family g.ip g.tail g.first (buffered socket) greets.family greets.ip greets.tail
        greets.short
        (Until-buffered limits acceptor g.payload socket.chunks socket.ending
          (line_of g.family g.ip g.tail ++ b'\n' ∷ g.first) g.others greets.sends) in
    rw header (
      negotiate-Through limits acceptor g.payload greets.startup room g.ip g.codes g.encrypted fuel
        socket.ending g.first g.others g.stream r out enough works until greets.asks)
