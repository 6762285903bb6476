-- ===== src/Proxy/Stream/Waiting.antt =====
-- Reads from a socket on which the other side waits for an answer: what arrives before it has the
-- answer comes in pieces of its own.
use pg_prism.Prelude.{
  ℕ, ◌-◌, ◌<◌, true, false, Bool-cases, List, [], ◌∷◌, ◌++◌, ◌≡◌, inl, inr, refl, sym, ap, ◌∙◌,
  arith, leb, length, length-append, take, drop, length-take, take-append-drop, append_assoc, All,
}
use pg_prism.Text.{Bytes}
use pg_prism.Proxy.Stream.{
  End, BufReader, into_inner, ReadResult, got, behind, read_from, read_exact, flatten,
}
use pg_prism.Proxy.Forward.Copy.{append_cancel}

-- A read that gives nothing is the end of a stream, so no piece is empty.
abbrev pub ArePieces : List Bytes → Type 0
ArePieces = All (λ (c : Bytes). 0 < length c)

-- The reader still gives these bytes, and then the other pieces, untouched.
pub record Until (others : List Bytes) (ending : End) (front : Bytes) (r : BufReader) : Type 0 where
  pub pieces : List Bytes
  pub are : ArePieces pieces
  pub chunks : r.chunks ≡ pieces ++ others
  pub bytes : r.buffer ++ flatten pieces ≡ front
  pub same : r.ending ≡ ending

pub read_from-fits :
    (buffer : Bytes) (chunks : List Bytes) (ending : End) (n : ℕ)
    → leb n (length buffer) ≡ true
    → read_from buffer chunks ending n
      ≡ got (take n buffer) (record { buffer = drop n buffer; chunks = chunks; ending = ending })
unfolding read_from
read_from-fits buffer [] ending n fits = rw fits refl
read_from-fits buffer (chunk ∷ chunks) ending n fits = rw fits refl

pub read_from-short :
    (buffer chunk : Bytes) (chunks : List Bytes) (ending : End) (n : ℕ)
    → leb n (length buffer) ≡ false
    → read_from buffer (chunk ∷ chunks) ending n
      ≡ behind buffer (read_from chunk chunks ending (n - length buffer))
unfolding read_from
read_from-short buffer chunk chunks ending n short = rw short refl

-- A read that is served before the others.
abbrev pub Serves : List Bytes → End → Bytes → Bytes → ReadResult → Type 0
Serves others ending x y result = (r : BufReader) × (result ≡ got x r) × Until others ending y r

module _ (others : List Bytes) (ending : End) where
  from_front :
      (buffer x y : Bytes) (pieces : List Bytes)
      → ArePieces pieces
      → buffer ++ flatten pieces ≡ x ++ y
      → leb (length x) (length buffer) ≡ true
      → Serves others ending x y (read_from buffer (pieces ++ others) ending (length x))
  from_front buffer x y pieces are e fits =
      let split : take (length x) buffer ++ (drop (length x) buffer ++ flatten pieces) ≡ x ++ y =
        sym (append_assoc (take (length x) buffer) (drop (length x) buffer) (flatten pieces))
        ∙ ap (λ (b : Bytes). b ++ flatten pieces) (take-append-drop (length x) buffer)
        ∙ e in
      let (front, back) =
        append_cancel (take (length x) buffer) x (drop (length x) buffer ++ flatten pieces) y split
          (ground (arith, length-take (length x) buffer, fits)) in
      (
        record { buffer = drop (length x) buffer; chunks = pieces ++ others; ending = ending },
        rw (read_from-fits buffer (pieces ++ others) ending (length x) fits, front) refl,
        record { pieces = pieces; are = are; chunks = refl; bytes = back; same = refl },
      )

  -- The part of a read that the buffer serves, and the rest of it.
  behind_read :
      (buffer x chunk : Bytes) (chunks : List Bytes) (r : BufReader)
      → take (length buffer) x ≡ buffer
      → read_from chunk chunks ending (length (drop (length buffer) x))
        ≡ got (drop (length buffer) x) r
      → behind buffer (read_from chunk chunks ending (length x - length buffer)) ≡ got x r
  behind_read buffer x chunk chunks r front read =
      let whole : buffer ++ drop (length buffer) x ≡ x =
        ap (λ (b : Bytes). b ++ drop (length buffer) x) (sym front)
        ∙ take-append-drop (length buffer) x in
      let lens : length (buffer ++ drop (length buffer) x) ≡ length x =
        ap (λ (b : Bytes). length b) whole in
      let len : length x - length buffer ≡ length (drop (length buffer) x) =
        omega (arith, lens, length-append buffer (drop (length buffer) x)) in
      rw (len, read) (ap (λ (b : Bytes). got b r) whole)

  read_from-Serves :
      (buffer x y : Bytes) (pieces : List Bytes)
      → ArePieces pieces
      → buffer ++ flatten pieces ≡ x ++ y
      → Serves others ending x y (read_from buffer (pieces ++ others) ending (length x))
  unfolding flatten
  read_from-Serves buffer x y [] are e =
      let lens : length (buffer ++ []) ≡ length (x ++ y) = ap (λ (b : Bytes). length b) e in
      from_front buffer x y [] are e
        (ground (arith, lens, length-append buffer [], length-append x y))
  read_from-Serves buffer x y (chunk ∷ pieces) (some_bytes, are) e =
      elim (Bool-cases (leb (length x) (length buffer))) [
        | inl fits ↦ from_front buffer x y (chunk ∷ pieces) (some_bytes, are) e fits
        | inr short ↦
            let split : take (length buffer) x ++ (drop (length buffer) x ++ y)
                ≡ buffer ++ (chunk ++ flatten pieces) =
              sym (append_assoc (take (length buffer) x) (drop (length buffer) x) y)
              ∙ ap (λ (b : Bytes). b ++ y) (take-append-drop (length buffer) x)
              ∙ sym e in
            let (front, back) =
              append_cancel (take (length buffer) x) buffer (drop (length buffer) x ++ y)
                (chunk ++ flatten pieces) split
                (ground (arith, length-take (length buffer) x, short)) in
            let (r, read, until) =
              read_from-Serves chunk (drop (length buffer) x) y pieces are (sym back) in
            (
              r,
              read_from-short buffer chunk (pieces ++ others) ending (length x) short
                  ∙ behind_read buffer x chunk (pieces ++ others) r front read,
              until,
            )
      ]

  -- A read of what comes before the others is served, and takes none of them.
  pub read_exact-Serves :
      (x y : Bytes) (reader : BufReader) (n : ℕ)
      → length x ≡ n
      → Until others ending (x ++ y) reader
      → Serves others ending x y (read_exact reader n)
  unfolding read_exact
  read_exact-Serves x y reader n len until =
      rw (sym len, until.chunks, until.same)
        (read_from-Serves reader.buffer x y until.pieces until.are until.bytes)

  no_pieces :
      (buffer : Bytes) (pieces : List Bytes)
      → ArePieces pieces
      → buffer ++ flatten pieces ≡ []
      → pieces ≡ []
  unfolding flatten
  no_pieces buffer [] are e = refl
  no_pieces buffer (chunk ∷ pieces) (some_bytes, are) e =
      let none_left : length (buffer ++ (chunk ++ flatten pieces)) ≡ 0 =
        ap (λ (b : Bytes). length b) e in
      absurd (
        omega (
          arith,
          none_left,
          some_bytes,
          length-append buffer (chunk ++ flatten pieces),
          length-append chunk (flatten pieces),
        ))

  -- Where all that comes before the others has been read, what is left is they, and nothing is lost.
  pub into_inner-Until :
      (r : BufReader)
      → Until others ending [] r
      → into_inner r ≡ record { chunks = others; ending = ending }
  into_inner-Until r until =
      rw (until.chunks, until.same, no_pieces r.buffer until.pieces until.are until.bytes) refl
