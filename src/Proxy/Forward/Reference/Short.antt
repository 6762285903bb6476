-- ===== src/Proxy/Forward/Reference/Short.antt =====
-- Reads of bytes that are there or not, and the blind copy of a body that the stream cuts off.
use pg_prism.Prelude.{
  ℕ, zero, suc, ◌+◌, ◌-◌, ◌*◌, ◌/◌, ◌≤◌, ◌<◌, min, false, [], ◌++◌, ◌≡◌, refl, sym, ap, ◌∙◌, arith,
  ◌==◌, leb, length, length-append, length-take, take, drop, take-append-drop, take_add,
  length-drop, append_assoc, append-nil, Bool-cases, inl, inr,
}
use pg_prism.Text.{Bytes}
use pg_prism.Proxy.Stream.{End, BufReader, ReadResult, got, ended, read_exact, content, Outgoing}
use pg_prism.Proxy.Stream.Reading.{ReadOutcome, read_exact-ReadOutcome}
use pg_prism.Proxy.Forward.{transfer_size, copy_blind}
use pg_prism.Proxy.Forward.Copy.{Works, Served, read_all, write_all-Sent}

pub read_take :
    (reader : BufReader) (n : ℕ)
    → n ≤ length (content reader)
    → Served (take n (content reader)) (drop n (content reader)) reader (read_exact reader n)
read_take reader n enough =
    read_all _ _ reader n (omega (arith, length-take n (content reader)))
      (sym (take-append-drop n (content reader)))

short_read :
    (bytes : Bytes) (e : End) (n : ℕ) (x : ReadResult)
    → length bytes < n
    → ReadOutcome bytes e n x
    → x ≡ ended e
short_read bytes e n (got front r) short (splits, len, same) = absurd (
    omega (arith, ap (λ (b : Bytes). length b) splits, length-append front (content r), len, short))
short_read bytes e n (ended e') short (_, same) = rw same refl

pub read_short :
    (reader : BufReader) (n : ℕ)
    → length (content reader) < n
    → read_exact reader n ≡ ended reader.ending
read_short reader n short = short_read _ reader.ending n _ short (read_exact-ReadOutcome reader n)

-- A body that the stream cuts off.
abbrev pub Shortened : BufReader → Outgoing → BufReader × Outgoing → Type 0
Shortened reader up p =
    (content p.0 ≡ [])
    × (p.0.ending ≡ reader.ending)
    × (p.1.sent ≡ up.sent ++ take (length (content reader) / 8192 * 8192) (content reader))
    × Works p.1

-- The first piece, and what is sent of the others.
Shortened-sent :
    (before after bytes rest : Bytes)
    → 8192 ≤ length bytes
    → after ≡ before ++ take 8192 bytes
    → rest ≡ drop 8192 bytes
    → after ++ take (length rest / 8192 * 8192) rest
      ≡ before ++ take (length bytes / 8192 * 8192) bytes
Shortened-sent before after bytes rest fits sent behind =
    let fewer : length rest ≡ length bytes - 8192 =
      ap (λ (b : Bytes). length b) behind ∙ length-drop 8192 bytes in
    let pieces : length bytes / 8192 * 8192 ≡ 8192 + length rest / 8192 * 8192 =
      omega (arith, fewer, fits) in
    ap (λ (b : Bytes). b ++ take (length rest / 8192 * 8192) rest) sent
    ∙ append_assoc before (take 8192 bytes) _
    ∙ ap (λ (b : Bytes). before ++ (take 8192 bytes ++ take (length rest / 8192 * 8192) b)) behind
    ∙ ap (λ (b : Bytes). before ++ b) (sym (take_add 8192 (length rest / 8192 * 8192) bytes))
    ∙ ap (λ (n : ℕ). before ++ take n bytes) (sym pieces)

pub copy_blind-Shortened :
    (fuel left : ℕ) (reader : BufReader) (up : Outgoing)
    → length (content reader) < left
    → left ≤ fuel
    → Works up
    → Shortened reader up (copy_blind fuel left reader up)
unfolding copy_blind content
copy_blind-Shortened zero left reader up short enough works = absurd (omega (arith, short, enough))
copy_blind-Shortened (suc fuel) left reader up short enough works =
    let some_left : (left == 0) ≡ false = ground (arith, short) in
    elim (Bool-cases (leb (min left transfer_size) (length (content reader)))) [
      | inl full ↦
          let piece : min left transfer_size ≡ 8192 = ground (arith, full, short) in
          let fits : 8192 ≤ length (content reader) = ground (arith, full, piece) in
          let (r, read, behind, same) = read_take reader 8192 fits in
          let (up', wrote, sent, works') = write_all-Sent up (take 8192 (content reader)) works in
          let fewer : length (content r) ≡ length (content reader) - 8192 =
            ap (λ (b : Bytes). length b) behind ∙ length-drop 8192 (content reader) in
          let (none_left, same', sent', works'') =
            copy_blind-Shortened fuel (left - 8192) r up' (omega (arith, fewer, short, fits))
              (omega (arith, enough)) works' in
          rw (some_left, piece, read, wrote)
            (
              none_left,
              same' ∙ same,
              sent' ∙ Shortened-sent up.sent up'.sent (content reader) (content r) fits sent behind,
              works'',
            )
      | inr partial ↦
          let none_whole : length (content reader) / 8192 * 8192 ≡ 0 =
            ground (arith, partial, short) in
          rw
            (
              some_left,
              read_short reader (min left transfer_size) (ground (arith, partial)),
              none_whole,
            )
            (refl, refl, sym (append-nil up.sent), works)
    ]
