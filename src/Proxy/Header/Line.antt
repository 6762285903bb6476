-- ===== src/Proxy/Header/Line.antt =====
-- `read_proxy_v1_header` of core/rust/src/proxy.rs on a stream that starts with a line, or has none.
use pg_prism.Prelude.{
  ℕ, zero, suc, ◌+◌, ◌<◌, false, [], ◌∷◌, ◌++◌, ◌≡◌, refl, arith, leb, ◌==◌, length, length-append,
  append_assoc, All, Bool-cases, inl, inr,
}
use pg_prism.Text.{Bytes}
use pg_prism.Proxy.Stream.{BufReader, content}
use pg_prism.Proxy.Stream.Supply.{Supply, all_of}
use pg_prism.Proxy.Forward.Copy.{read_all}
use pg_prism.Proxy.Header.{
  ok, protocol, header_too_long, ◌>>=◌, read_line, parse_header, read_proxy_v1_header,
}

-- No byte ends a line.
abbrev pub IsOneLine : Bytes → Type 0
IsOneLine line = All (λ b. (b == b'\n') ≡ false) line

module _ (supply : Supply) where
  read_line-line :
      (line rest header : Bytes) (fuel max_len : ℕ) (reader : BufReader)
      → IsOneLine line
      → supply.Has (line ++ b'\n' ∷ rest) reader
      → length header + length line < max_len
      → length line < fuel
      → (r : BufReader) × (read_line fuel max_len header reader
          ≡ ok (header ++ (line ++ b'\n' ∷ []), r))
        × supply.Has rest r
  unfolding read_line
  read_line-line line rest header zero max_len reader plain has len enough =
      absurd (omega (arith, enough))
  read_line-line [] rest header (suc fuel) max_len reader plain has len enough =
      let (r, read, behind) = supply.serve (b'\n' ∷ []) rest reader 1 refl has in
      (r, rw read refl, behind)
  read_line-line (b ∷ line) rest header (suc fuel) max_len reader (plain, plains) has len enough =
      let (r, read, behind) = supply.serve (b ∷ []) (line ++ b'\n' ∷ rest) reader 1 refl has in
      let longer : length (header ++ b ∷ []) ≡ length header + 1 = length-append header (b ∷ []) in
      let below : leb max_len (length (header ++ b ∷ [])) ≡ false = ground (arith, longer, len) in
      let (r', rest_read, behind') =
        read_line-line line rest (header ++ b ∷ []) fuel max_len r plains behind
          (omega (arith, longer, len)) (omega (arith, enough)) in
      (
        r',
        rw (read, plain, below, rest_read, append_assoc header (b ∷ []) (line ++ b'\n' ∷ [])) refl,
        behind',
      )

  -- The header from a reader that has a line below the limit: it is decided by that line alone, its
  -- newline included, and the reader still has all that follows.
  pub read_proxy_v1_header-Has :
      (max_len : ℕ) (line rest : Bytes) (reader : BufReader)
      → IsOneLine line
      → length line < max_len
      → supply.Has (line ++ b'\n' ∷ rest) reader
      → (r : BufReader) × (read_proxy_v1_header max_len reader
          ≡ parse_header (line ++ b'\n' ∷ []) >>= (λ client_ip. ok (client_ip, r)))
        × supply.Has rest r
  unfolding read_proxy_v1_header
  read_proxy_v1_header-Has max_len line rest reader plain len has =
      let (r, read, behind) =
        read_line-line line rest [] (suc max_len) max_len reader plain has (omega (arith, len))
          (omega (arith, len)) in
      (r, rw read refl, behind)

-- A stream that starts with a line below the limit: what the header gives is decided by that line
-- alone, its newline included, however it arrives in pieces, and the reader is left exactly behind
-- it, so no byte of what follows is lost or taken for the header.
pub read_proxy_v1_header-line :
    (max_len : ℕ) (line rest : Bytes) (reader : BufReader)
    → IsOneLine line
    → length line < max_len
    → content reader ≡ line ++ b'\n' ∷ rest
    → (r : BufReader) × (read_proxy_v1_header max_len reader
        ≡ parse_header (line ++ b'\n' ∷ []) >>= (λ client_ip. ok (client_ip, r)))
      × (content r ≡ rest)
      × (r.ending ≡ reader.ending)
read_proxy_v1_header-line max_len line rest reader plain len e =
    let (r, read, (behind, same)) =
      read_proxy_v1_header-Has (all_of reader.ending) max_len line rest reader plain len
        (e, refl) in
    (r, read, behind, same)

-- A stream with no newline among its first bytes, as many as the limit.
read_line-long :
    (long rest header : Bytes) (fuel max_len : ℕ) (reader : BufReader)
    → IsOneLine long
    → content reader ≡ long ++ rest
    → length header < max_len
    → length header + length long ≡ max_len
    → length long < fuel
    → read_line fuel max_len header reader ≡ protocol (header_too_long max_len)
unfolding read_line
read_line-long long rest header zero max_len reader plain e below len enough =
    absurd (omega (arith, enough))
read_line-long [] rest header (suc fuel) max_len reader plain e below len enough =
    absurd (omega (arith, len, below))
read_line-long (b ∷ long) rest header (suc fuel) max_len reader (plain, plains) e below len enough =
    let (r, read, behind, same) = read_all (b ∷ []) (long ++ rest) reader 1 refl e in
    let longer : length (header ++ b ∷ []) ≡ length header + 1 = length-append header (b ∷ []) in
    elim (Bool-cases (leb max_len (length (header ++ b ∷ [])))) [
      | inl full ↦ rw (read, plain, full) refl
      | inr room ↦
          rw (read, plain, room)
            (read_line-long long rest (header ++ b ∷ []) fuel max_len r plains behind
              (ground (arith, room)) (omega (arith, longer, len)) (omega (arith, enough)))
    ]

-- A client whose first bytes, as many as the limit, hold no newline is told off, whatever comes
-- behind them.
pub read_proxy_v1_header-long :
    (max_len : ℕ) (long rest : Bytes) (reader : BufReader)
    → IsOneLine long
    → 0 < max_len
    → length long ≡ max_len
    → content reader ≡ long ++ rest
    → read_proxy_v1_header max_len reader ≡ protocol (header_too_long max_len)
unfolding read_proxy_v1_header
read_proxy_v1_header-long max_len long rest reader plain some_room len e =
    rw
      (read_line-long long rest [] (suc max_len) max_len reader plain e some_room
        (omega (arith, len)) (omega (arith, len)))
      refl
