-- ===== src/Proxy/Stream/Reading.antt =====
-- `read_exact` against the bytes of the stream, whatever the pieces in which they arrive.
use pg_prism.Prelude.{
  ℕ, ◌-◌, ◌≤◌, ◌<◌, List, [], ◌∷◌, ◌++◌, ◌≡◌, refl, sym, ap, ◌∙◌, arith, leb, length, length-append,
  take, drop, append_assoc, append-nil, take-append-drop, length-take, Bool-cases, inl, inr,
}
use pg_prism.Text.{Bytes}
use pg_prism.Proxy.Stream.{
  End, BufReader, ReadResult, got, ended, behind, read_from, read_exact, flatten, content,
}

-- What a read of `n` bytes must give of `bytes` and the end behind them.
abbrev pub ReadOutcome : Bytes → End → ℕ → ReadResult → Type 0
ReadOutcome bytes ending n (got front r) =
    (bytes ≡ front ++ content r) × (length front ≡ n) × (r.ending ≡ ending)
ReadOutcome bytes ending n (ended e) = (length bytes < n) × (e ≡ ending)

-- A read that the buffer alone serves.
from_buffer :
    (buffer : Bytes) (chunks : List Bytes) (ending : End) (n : ℕ)
    → n ≤ length buffer
    → ReadOutcome
        (buffer ++ flatten chunks)
        ending
        n
        (got (take n buffer) (record { buffer = drop n buffer; chunks = chunks; ending = ending }))
unfolding content
from_buffer buffer chunks ending n le = (
  ap (λ (b : Bytes). b ++ flatten chunks) (sym (take-append-drop n buffer))
      ∙ append_assoc (take n buffer) (drop n buffer) (flatten chunks),
  omega (arith, length-take n buffer),
  refl,
)

behind-ReadOutcome :
    (buffer rest : Bytes) (ending : End) (n : ℕ) (r : ReadResult)
    → length buffer < n
    → ReadOutcome rest ending (n - length buffer) r
    → ReadOutcome (buffer ++ rest) ending n (behind buffer r)
behind-ReadOutcome buffer rest ending n (got front r) lt (splits, len, same) = (
  ap (◌++◌ buffer) splits ∙ sym (append_assoc buffer front (content r)),
  omega (arith, length-append buffer front, len, lt),
  same,
)
behind-ReadOutcome buffer rest ending n (ended e) lt (short, same) =
    (omega (arith, length-append buffer rest, short, lt), same)

read_from-ReadOutcome :
    (buffer : Bytes) (chunks : List Bytes) (ending : End) (n : ℕ)
    → ReadOutcome (buffer ++ flatten chunks) ending n (read_from buffer chunks ending n)
unfolding read_from flatten
read_from-ReadOutcome buffer [] ending n = elim (Bool-cases (leb n (length buffer))) [
  | inl fits ↦ rw fits (from_buffer buffer [] ending n (ground arith))
  | inr short ↦ rw short (rw append-nil (ground arith), refl)
]
read_from-ReadOutcome buffer (chunk ∷ chunks) ending n = elim (Bool-cases (leb n (length buffer))) [
  | inl fits ↦ rw fits (from_buffer buffer (chunk ∷ chunks) ending n (ground arith))
  | inr short ↦ rw (short) (
      behind-ReadOutcome buffer (chunk ++ flatten chunks) ending n _ (ground arith)
        (read_from-ReadOutcome chunk chunks ending (n - length buffer)))
]

-- A read of `n` bytes takes the first `n` bytes of the stream, whatever the pieces are in which
-- they arrive, and leaves the rest; it fails exactly where the stream has fewer.
pub read_exact-ReadOutcome :
    (r : BufReader) (n : ℕ) → ReadOutcome (content r) r.ending n (read_exact r n)
unfolding read_exact content
read_exact-ReadOutcome r n = read_from-ReadOutcome r.buffer r.chunks r.ending n
