-- ===== src/Proxy/Forward/Copy.antt =====
-- Reads, writes, and the inner loop of the blind forwarding in core/rust/src/proxy.rs.
use mathlib.Core.Path.{subst}
use pg_prism.Prelude.{
  ℕ, zero, suc, ◌-◌, ◌≤◌, ◌<◌, min, Bool, true, [], ◌∷◌, ◌++◌, ◌≡◌, refl, sym, ap, ◌∙◌, arith, none,
  ◌==◌, length, length-append, length-take, take, drop, take-append-drop, append_assoc, append-nil,
  Bool-cases, inl, inr,
}
use pg_prism.Text.{Bytes}
use pg_prism.Proxy.Stream.{
  BufReader, ReadResult, got, ended, read_exact, content, Outgoing, write_all,
}
use pg_prism.Proxy.Stream.Reading.{ReadOutcome, read_exact-ReadOutcome}
use pg_prism.Proxy.Client.{write_both}
use pg_prism.Proxy.Forward.{transfer_size, copy_blind}

pub append_cancel :
    (xs ys us vs : Bytes) → xs ++ us ≡ ys ++ vs → length xs ≡ length ys → (xs ≡ ys) × (us ≡ vs)
append_cancel [] [] us vs e len = (refl, e)
append_cancel [] (y ∷ ys) us vs e len = absurd (omega (arith, len))
append_cancel (x ∷ xs) [] us vs e len = absurd (omega (arith, len))
append_cancel (x ∷ xs) (y ∷ ys) us vs e len =
    let head : x ≡ y = cc e in
    let (tails, rest) = append_cancel xs ys us vs (cc e) (omega (arith, len)) in
    (rw (head, tails) refl, rest)

-- A read that the stream serves.
abbrev pub Served : Bytes → Bytes → BufReader → ReadResult → Type 0
Served front rest reader x =
    (r : BufReader) × (x ≡ got front r) × (content r ≡ rest) × (r.ending ≡ reader.ending)

Served-of :
    (front rest : Bytes) (reader : BufReader) (n : ℕ) (x : ReadResult)
    → length front ≡ n
    → ReadOutcome (front ++ rest) reader.ending n x
    → Served front rest reader x
Served-of front rest reader n (got bytes r) len (splits, len', same) =
    let (fronts, rests) =
      append_cancel front bytes rest (content r) splits (omega (arith, len, len')) in
    (r, rw fronts refl, sym rests, same)
Served-of front rest reader n (ended e) len (short, same) =
    absurd (omega (arith, length-append front rest, len, short))

pub read_all :
    (front rest : Bytes) (reader : BufReader) (n : ℕ)
    → length front ≡ n
    → content reader ≡ front ++ rest
    → Served front rest reader (read_exact reader n)
read_all front rest reader n len e = Served-of front rest reader n _ len (
    subst (λ (b : Bytes). ReadOutcome b reader.ending n (read_exact reader n)) e
      (read_exact-ReadOutcome reader n))

-- No write on the socket fails.
abbrev pub Works : Outgoing → Type 0
Works out = (n : ℕ) → out.fate n ≡ none

-- All of the bytes go out behind those before.
abbrev pub Sent : Outgoing → Bytes → Bool × Outgoing → Type 0
Sent out bytes w =
    (out' : Outgoing) × (w ≡ (true, out')) × (out'.sent ≡ out.sent ++ bytes) × Works out'

pub write_all-Sent :
    (out : Outgoing) (bytes : Bytes) → Works out → Sent out bytes (write_all out bytes)
unfolding write_all
write_all-Sent out bytes works = rw (works out.writes) (_, refl, refl, works)

pub write_both-Sent :
    (out : Outgoing) (first second : Bytes)
    → Works out
    → Sent out (first ++ second) (write_both out first second)
unfolding write_both
write_both-Sent out first second works =
    let (out1, e1, s1, w1) = write_all-Sent out first works in
    let (out2, e2, s2, w2) = write_all-Sent out1 second w1 in
    rw e1
      (out2, e2, s2 ∙ ap (λ (b : Bytes). b ++ second) s1 ∙ append_assoc out.sent first second, w2)

-- A whole body is copied, in pieces of at most the transfer size.
abbrev pub Copied : Bytes → Bytes → BufReader → Outgoing → BufReader × Outgoing → Type 0
Copied body rest reader up p =
    (content p.0 ≡ rest) × (p.0.ending ≡ reader.ending) × (p.1.sent ≡ up.sent ++ body) × Works p.1

pub copy_blind-Copied :
    (fuel left : ℕ) (body rest : Bytes) (reader : BufReader) (up : Outgoing)
    → length body ≡ left
    → left ≤ fuel
    → content reader ≡ body ++ rest
    → Works up
    → Copied body rest reader up (copy_blind fuel left reader up)
unfolding copy_blind
copy_blind-Copied zero left [] rest reader up len enough e works =
    (e, refl, sym (append-nil up.sent), works)
copy_blind-Copied zero left (b ∷ body) rest reader up len enough e works =
    absurd (omega (arith, len, enough))
copy_blind-Copied (suc fuel) left body rest reader up len enough e works =
    elim (Bool-cases (left == 0)) [
      | inl none_left ↦
          let nothing : body ≡ [] = is_nil body (ground (arith, none_left, len)) in
          rw (none_left, nothing) (rw nothing at e, refl, sym (append-nil up.sent), works)
      | inr some_left ↦
          let c = min left transfer_size in
          let some_copied : 0 < c = ground (arith, some_left) in
          let whole = take-append-drop c body in
          let front_len : length (take c body) ≡ c = omega (arith, length-take c body, len) in
          let back_len : length (drop c body) ≡ left - c = omega (
            arith,
            ap (λ (b : Bytes). length b) whole,
            length-append (take c body) (drop c body),
            front_len,
            len,
          ) in
          let (r, read, behind, same) =
            read_all (take c body) (drop c body ++ rest) reader c front_len (
              e
              ∙ ap (λ (b : Bytes). b ++ rest) (sym whole)
              ∙ append_assoc (take c body) (drop c body) rest) in
          let (up', wrote, sent, works') = write_all-Sent up (take c body) works in
          let (behind', same', sent', works'') =
            copy_blind-Copied fuel (left - c) (drop c body) rest r up' back_len
              (omega (arith, some_copied, enough)) behind works' in
          rw (some_left, read, wrote)
            (
              behind',
              same' ∙ same,
              sent'
                  ∙ ap (λ (b : Bytes). b ++ drop c body) sent
                  ∙ append_assoc up.sent (take c body) (drop c body)
                  ∙ ap (λ (b : Bytes). up.sent ++ b) whole,
              works'',
            )
    ]
  where
    is_nil : (xs : Bytes) → length xs ≡ 0 → xs ≡ []
    is_nil [] h = refl
    is_nil (x ∷ xs) h = absurd (omega (arith, h))
