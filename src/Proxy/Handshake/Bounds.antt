-- ===== src/Proxy/Handshake/Bounds.antt =====
-- The lengths of what `perform_handshake` of core/rust/src/proxy.rs hands on.
use pg_prism.Prelude.{
  ℕ, zero, suc, ◌+◌, ◌≤◌, Bool, true, false, [], ◌∷◌, Option, none, some, ◌≡◌, arith, ltb,
  case_option, length, Bool-cases, Option-cases, inl, inr,
}
use pg_prism.Text.{Str, Bytes}
use pg_prism.Limits.{Limits, min_startup_packet_length}
use pg_prism.Proxy.Stream.{
  Incoming, BufReader, ReadResult, got, ended, closed, silent, End, read_exact, Outgoing, write_all,
  buffered, into_inner,
}
use pg_prism.Proxy.Stream.Reading.{ReadOutcome, read_exact-ReadOutcome}
use pg_prism.Proxy.Header.{Step, ok, protocol, io, timed_out, ◌>>=◌, of_read, read_proxy_v1_header}
use pg_prism.Proxy.Handshake.{
  TlsAcceptor, HandshakeOutcome, session, cancel, checked_startup_len, be_u32, read_packet,
  request_of, Request, wants_ssl, wants_cancel, wants_gssenc, wants_session, read_inside_tls,
  negotiate, by_request, perform_handshake, Sends, after_write, and_then,
}

-- A payload that holds a request code, and with its length prefix no more than the limit.
abbrev pub FitsLimits : Limits → Bytes → Type 0
FitsLimits limits payload = (4 ≤ length payload) × (length payload + 4 ≤ limits.max_startup_len)

-- If the step gives a value, then it has the property.
abbrev pub Yields {ℓ} : {A : Type ℓ} → (A → Type 0) → Step A → Type 0
Yields P (ok a) = P a
Yields P (protocol e) = Unit
Yields P io = Unit
Yields P timed_out = Unit

-- The payload of either outcome.
abbrev pub payload_of : HandshakeOutcome → Bytes
payload_of (session stream payload client_ip) = payload
payload_of (cancel payload client_ip) = payload

of_read-length :
    (bytes : Bytes) (ending : End) (n : ℕ) (r : ReadResult)
    → ReadOutcome bytes ending n r
    → Yields (λ r. length r.0 ≡ n) (of_read r)
of_read-length bytes ending n (got front r) (splits, len, same) = len
of_read-length bytes ending n (ended closed) short = tt
of_read-length bytes ending n (ended silent) short = tt

exact_length :
    (reader : BufReader) (n : ℕ) → Yields (λ r. length r.0 ≡ n) (of_read (read_exact reader n))
exact_length reader n = of_read-length _ _ n _ (read_exact-ReadOutcome reader n)

checked_startup_len-Yields :
    (limits : Limits) (n : ℕ)
    → Yields (λ len. (4 ≤ len) × (len + 4 ≤ limits.max_startup_len)) (checked_startup_len n limits)
unfolding checked_startup_len
checked_startup_len-Yields limits n = elim (Bool-cases (ltb n min_startup_packet_length)) [
  | inl short ↦ rw short tt
  | inr enough ↦ elim (Bool-cases (ltb limits.max_startup_len n)) [
    | inl long ↦ rw (enough, long) tt
    | inr fits ↦ rw (enough, fits) (ground arith, ground arith)
  ]
]

pub Yields-bind {ℓ κ} :
    {A : Type ℓ} {B : Type κ} (P : A → Type 0) (Q : B → Type 0) (s : Step A) (f : A → Step B)
    → Yields P s
    → ((a : A) → P a → Yields Q (f a))
    → Yields Q (s >>= f)
Yields-bind P Q (ok a) f h g = g a h
Yields-bind P Q (protocol e) f h g = tt
Yields-bind P Q io f h g = tt
Yields-bind P Q timed_out f h g = tt

pub Yields-any {ℓ} : {A : Type ℓ} (s : Step A) → Yields (λ a. Unit) s
Yields-any (ok a) = tt
Yields-any (protocol e) = tt
Yields-any io = tt
Yields-any timed_out = tt

pub Yields-map {ℓ} :
    {A : Type ℓ} (P Q : A → Type 0) → ((a : A) → P a → Q a) → (s : Step A) → Yields P s → Yields Q s
Yields-map P Q f (ok a) h = f a h
Yields-map P Q f (protocol e) h = tt
Yields-map P Q f io h = tt
Yields-map P Q f timed_out h = tt

fit_length :
    (limits : Limits) (payload : Bytes) (n : ℕ)
    → length payload ≡ n
    → (4 ≤ n) × (n + 4 ≤ limits.max_startup_len)
    → FitsLimits limits payload
fit_length limits payload n len (four, fits) = (omega arith, omega arith)

read_packet-Yields :
    (limits : Limits) (reader : BufReader)
    → Yields (λ r. FitsLimits limits r.0) (read_packet limits reader)
unfolding read_packet
read_packet-Yields limits reader =
    Yields-bind (λ r. length r.0 ≡ 4) _ _ _ (exact_length reader 4)
      (λ prefix is_four.
        Yields-bind (λ len. (4 ≤ len) × (len + 4 ≤ limits.max_startup_len)) _ _ _
          (checked_startup_len-Yields limits (be_u32 prefix.0))
          (λ payload_len fits.
            Yields-map (λ r. length r.0 ≡ payload_len) (λ r. FitsLimits limits r.0)
              (λ r len. fit_length limits r.0 payload_len len fits) _
              (exact_length prefix.1 payload_len)))

after_write-Yields {ℓ} :
    {A : Type ℓ} (P : A → Type 0) (w : Bool × Outgoing) (f : Outgoing → Sends A)
    → ((out : Outgoing) → Yields P (f out).0)
    → Yields P (after_write w f).0
after_write-Yields P (true, out) f h = h out
after_write-Yields P (false, out) f h = tt

and_then-Yields {ℓ κ} :
    {A : Type ℓ} {B : Type κ} (P : A → Type 0) (Q : B → Type 0) (s : Step A) (out : Outgoing)
    (f : A → Sends B)
    → Yields P s
    → ((a : A) → P a → Yields Q (f a).0)
    → Yields Q (and_then s out f).0
and_then-Yields P Q (ok a) out f h g = g a h
and_then-Yields P Q (protocol e) out f h g = tt
and_then-Yields P Q io out f h g = tt
and_then-Yields P Q timed_out out f h g = tt

module _ (limits : Limits) where
  abbrev Bounded : HandshakeOutcome → Type 0
  Bounded o = FitsLimits limits (payload_of o)

  read_inside_tls-Yields :
      (acceptor : TlsAcceptor) (client_ip : Str) (socket : Incoming) (out : Outgoing)
      → Yields Bounded (read_inside_tls limits acceptor client_ip socket out).0
  unfolding read_inside_tls
  read_inside_tls-Yields acceptor client_ip socket out = elim (Option-cases (acceptor socket)) [
    | inl e ↦ rw e tt
    | inr (s, e) ↦ rw e (
        and_then-Yields (λ r. FitsLimits limits r.0) Bounded (read_packet limits (buffered s)) out
          (λ r. (ok (session (into_inner r.1) r.0 client_ip), out))
          (read_packet-Yields limits (buffered s)) (λ r fits. fits))
  ]

  by_request-Yields :
      (q : Request) (a b c d : Sends HandshakeOutcome)
      → Yields Bounded a.0
      → Yields Bounded b.0
      → Yields Bounded c.0
      → Yields Bounded d.0
      → Yields Bounded (by_request q a b c d).0
  by_request-Yields wants_ssl a b c d ha hb hc hd = ha
  by_request-Yields wants_cancel a b c d ha hb hc hd = hb
  by_request-Yields wants_gssenc a b c d ha hb hc hd = hc
  by_request-Yields wants_session a b c d ha hb hc hd = hd

  case_option-Yields :
      (acceptor : Option TlsAcceptor) (a : Sends HandshakeOutcome)
      (f : TlsAcceptor → Sends HandshakeOutcome)
      → Yields Bounded a.0
      → ((tls : TlsAcceptor) → Yields Bounded (f tls).0)
      → Yields Bounded (case_option acceptor a f).0
  case_option-Yields none a f ha hf = ha
  case_option-Yields (some tls) a f ha hf = hf tls

  negotiate-Yields :
      (fuel : ℕ) (acceptor : Option TlsAcceptor) (client_ip : Str) (reader : BufReader)
      (out : Outgoing)
      → Yields Bounded (negotiate fuel limits acceptor client_ip reader out).0
  unfolding negotiate
  negotiate-Yields zero acceptor client_ip reader out = tt
  negotiate-Yields (suc fuel) acceptor client_ip reader out =
      and_then-Yields (λ r. FitsLimits limits r.0) Bounded (read_packet limits reader) out _
        (read_packet-Yields limits reader)
        (λ r fits.
          let refused =
            after_write-Yields Bounded (write_all out (b'N' ∷ [])) _
              (λ out'. negotiate-Yields fuel acceptor client_ip (buffered (into_inner r.1)) out') in
          by_request-Yields (request_of (be_u32 r.0)) _ _ _ _
            (case_option-Yields acceptor _ _ refused (λ tls.
              after_write-Yields Bounded (write_all out (b'S' ∷ [])) _
                (λ out'. read_inside_tls-Yields tls client_ip (into_inner r.1) out')))
            fits refused fits)

  -- Whatever the client sends, in whatever pieces and over TLS or not, the payload that the
  -- handshake hands on holds a request code at least, and with its length prefix it is no longer
  -- than the configured limit.
  pub perform_handshake-Yields :
      (fuel : ℕ) (acceptor : Option TlsAcceptor) (socket : Incoming) (out : Outgoing)
      → Yields
          (λ o. FitsLimits limits (payload_of o))
          (perform_handshake fuel limits acceptor socket out).0
  unfolding perform_handshake
  perform_handshake-Yields fuel acceptor socket out =
      and_then-Yields (λ r. Unit) Bounded
        (read_proxy_v1_header limits.max_proxy_header_len (buffered socket)) out _ (Yields-any _)
        (λ r u. negotiate-Yields fuel acceptor r.0 r.1 out)
