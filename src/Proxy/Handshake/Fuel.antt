-- ===== src/Proxy/Handshake/Fuel.antt =====
-- The fuel of `negotiate`, the loop of `perform_handshake` in core/rust/src/proxy.rs.
use pg_prism.Prelude.{
  ℕ, zero, suc, ◌+◌, ◌≤◌, ◌<◌, Bool, true, false, [], ◌∷◌, Option, ◌≡◌, refl, ap, arith, length,
  length-append,
}
use pg_prism.Text.{Str, Bytes}
use pg_prism.Limits.{Limits}
use pg_prism.Proxy.Stream.{
  BufReader, ReadResult, got, ended, closed, silent, read_exact, content, flatten, Outgoing,
  write_all, buffered, into_inner,
}
use pg_prism.Proxy.Stream.Reading.{ReadOutcome, read_exact-ReadOutcome}
use pg_prism.Proxy.Header.{Step, ok, protocol, io, timed_out, of_read}
use pg_prism.Proxy.Handshake.{
  TlsAcceptor, checked_startup_len, be_u32, read_packet, negotiate, Sends, after_write, and_then,
}
use pg_prism.Proxy.Handshake.Bounds.{Yields, Yields-bind, Yields-map, Yields-any}

-- The bytes still to come.
abbrev left : BufReader → ℕ
left r = length (content r)

of_read-left :
    (reader : BufReader) (n : ℕ) (r : ReadResult)
    → ReadOutcome (content reader) reader.ending n r
    → Yields (λ p. left p.1 + n ≡ left reader) (of_read r)
of_read-left reader n (got front r) (splits, len, same) =
    omega (arith, ap (λ (b : Bytes). length b) splits, length-append front (content r), len)
of_read-left reader n (ended closed) short = tt
of_read-left reader n (ended silent) short = tt

read_exact-left :
    (reader : BufReader) (n : ℕ)
    → Yields (λ p. left p.1 + n ≡ left reader) (of_read (read_exact reader n))
read_exact-left reader n = of_read-left reader n _ (read_exact-ReadOutcome reader n)

-- The next round starts from fewer bytes.
abbrev Shrinks : BufReader → Bytes × BufReader → Type 0
Shrinks reader p = left (buffered (into_inner p.1)) < left reader

into_inner-left : (r : BufReader) → left (buffered (into_inner r)) ≤ left r
unfolding content
into_inner-left r = omega (arith, length-append r.buffer (flatten r.chunks))

read_packet-Shrinks :
    (limits : Limits) (reader : BufReader) → Yields (Shrinks reader) (read_packet limits reader)
unfolding read_packet
read_packet-Shrinks limits reader =
    Yields-bind (λ p. left p.1 + 4 ≡ left reader) _ _ _ (read_exact-left reader 4)
      (λ prefix four.
        Yields-bind (λ n. Unit) _ _ _ (Yields-any (checked_startup_len (be_u32 prefix.0) limits))
          (λ n u.
            Yields-map (λ p. left p.1 + n ≡ left prefix.1) (Shrinks reader)
              (λ p e. omega (arith, e, four, into_inner-left p.1)) _ (read_exact-left prefix.1 n)))

and_then-cong {ℓ κ} :
    {A : Type ℓ} {B : Type κ} (P : A → Type 0) (s : Step A) (out : Outgoing) (f g : A → Sends B)
    → Yields P s
    → ((a : A) → P a → f a ≡ g a)
    → and_then s out f ≡ and_then s out g
and_then-cong P (ok a) out f g h e = e a h
and_then-cong P (protocol x) out f g h e = refl
and_then-cong P io out f g h e = refl
and_then-cong P timed_out out f g h e = refl

after_write-cong {ℓ} :
    {A : Type ℓ} (w : Bool × Outgoing) (f g : Outgoing → Sends A)
    → ((out : Outgoing) → f out ≡ g out)
    → after_write w f ≡ after_write w g
after_write-cong (true, out) f g e = e out
after_write-cong (false, out) f g e = refl

module _ (limits : Limits) (acceptor : Option TlsAcceptor) (client_ip : Str) where
  -- All fuels above the number of bytes to come give the same: the loop ends by itself, at the
  -- latest where the stream does.
  pub negotiate-enough :
      (fuel fuel' : ℕ) (reader : BufReader) (out : Outgoing)
      → length (content reader) < fuel
      → length (content reader) < fuel'
      → negotiate fuel limits acceptor client_ip reader out
        ≡ negotiate fuel' limits acceptor client_ip reader out
  unfolding negotiate
  negotiate-enough zero fuel' reader out h h' = absurd (omega (arith, h))
  negotiate-enough (suc fuel) zero reader out h h' = absurd (omega (arith, h'))
  negotiate-enough (suc fuel) (suc fuel') reader out h h' =
      and_then-cong (Shrinks reader) (read_packet limits reader) out _ _
        (read_packet-Shrinks limits reader)
        (λ r less.
          let same =
            after_write-cong (write_all out (b'N' ∷ []))
              (λ out'. negotiate fuel limits acceptor client_ip (buffered (into_inner r.1)) out')
              (λ out'. negotiate fuel' limits acceptor client_ip (buffered (into_inner r.1)) out')
              (λ out'.
                negotiate-enough fuel fuel' (buffered (into_inner r.1)) out'
                  (omega (arith, less, h)) (omega (arith, less, h'))) in
          rw same refl)
