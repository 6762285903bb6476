-- ===== src/Proxy/Header/RoundTrip.antt =====
-- A PROXY v1 header as a load balancer writes it, read by `read_proxy_v1_header` of
-- core/rust/src/proxy.rs.
use pg_prism.Prelude.{
  ℕ, ◌<◌, false, [], ◌∷◌, ◌++◌, ◌≡◌, refl, ap, ◌∙◌, arith, ◌==◌, length, All, All-append,
}
use pg_prism.Text.{Str, Bytes}
use pg_prism.Proxy.Stream.{BufReader, content}
use pg_prism.Proxy.Header.{Step, ok, ◌>>=◌, parse_header, read_proxy_v1_header}
use pg_prism.Proxy.Stream.Supply.{Supply, all_of}
use pg_prism.Proxy.Header.Line.{read_proxy_v1_header-Has}
use pg_prism.Proxy.Header.Words.{
  line_of, IsWord, IsPrinted, proxy_word, proxy_word-IsWord, word-All, line_of-words,
  parse_header-words,
}

-- One shape for the bytes of a line: none ends it, and all are ASCII.
abbrev IsLineByte : ℕ → Type 0
IsLineByte c = ((c == b'\n') ≡ false) × (c < 0x80)

printed_lem : (s : Str) → IsPrinted s → All IsLineByte s
printed_lem [] h = tt
printed_lem (c ∷ s) ((lo, hi), h) = ((ground (arith, lo), omega (arith, hi)), printed_lem s h)

word_lem : (w : Str) → All (λ c. (0x20 < c) × (c < 0x7F)) w → All IsLineByte w
word_lem [] h = tt
word_lem (c ∷ w) ((lo, hi), h) = ((ground (arith, lo), omega (arith, hi)), word_lem w h)

one_line : (s : Str) → All IsLineByte s → All (λ c. (c == b'\n') ≡ false) s
one_line [] h = tt
one_line (c ∷ s) ((p, q), h) = (p, one_line s h)

ascii_line : (s : Str) → All IsLineByte s → All (λ c. c < 0x80) s
ascii_line [] h = tt
ascii_line (c ∷ s) ((p, q), h) = (q, ascii_line s h)

with_blank : (w s : Str) → All IsLineByte w → All IsLineByte s → All IsLineByte (w ++ (b' ' ∷ s))
with_blank w s h k = All-append IsLineByte w (b' ' ∷ s) h (ground arith, k)

line_lem :
    (family ip tail : Str)
    → IsWord family
    → IsWord ip
    → IsPrinted tail
    → All IsLineByte (line_of family ip tail)
line_lem family ip tail fam word printed =
    with_blank proxy_word _ (word_lem proxy_word proxy_word-IsWord) (
      with_blank family _ (word_lem family (word-All family fam)) (
        with_blank ip _ (word_lem ip (word-All ip word))
          (All-append IsLineByte tail (b'\r' ∷ []) (printed_lem tail printed) (ground arith))))

parse_header-line_of :
    (family ip tail : Str)
    → IsWord family
    → IsWord ip
    → IsPrinted tail
    → parse_header (line_of family ip tail ++ b'\n' ∷ []) ≡ ok ip
parse_header-line_of family ip tail fam word printed = rw (line_of-words family ip tail) (
    parse_header-words family ip ((tail ++ (b'\r' ∷ [])) ++ (b'\n' ∷ [])) fam word (
      rw⁻¹ (line_of-words family ip tail) (
        All-append (λ c. c < 0x80) (line_of family ip tail) (b'\n' ∷ [])
          (ascii_line (line_of family ip tail) (line_lem family ip tail fam word printed))
          (ground arith))))

-- The same from a reader that has the line, with all behind it still there.
pub read_proxy_v1_header-Has_line_of :
    (supply : Supply) (max_len : ℕ) (family ip tail : Str) (rest : Bytes) (reader : BufReader)
    → IsWord family
    → IsWord ip
    → IsPrinted tail
    → length (line_of family ip tail) < max_len
    → supply.Has (line_of family ip tail ++ b'\n' ∷ rest) reader
    → (r : BufReader) × (read_proxy_v1_header max_len reader ≡ ok (ip, r)) × supply.Has rest r
read_proxy_v1_header-Has_line_of supply max_len family ip tail rest reader fam word printed short
      has =
    let (r, read, behind) =
      read_proxy_v1_header-Has supply max_len (line_of family ip tail) rest reader
        (one_line (line_of family ip tail) (line_lem family ip tail fam word printed)) short has in
    (
      r,
      read
          ∙ ap (λ (x : Step Str). x >>= (λ client_ip. ok (client_ip, r)))
              (parse_header-line_of family ip tail fam word printed),
      behind,
    )

-- A header as a load balancer writes it, `PROXY`, a family, an address and whatever else is on the
-- line, all printable ASCII and shorter than the limit, gives back the address as it was written,
-- however it arrives in pieces, and leaves the reader exactly behind the line.
pub read_proxy_v1_header-line_of :
    (max_len : ℕ) (family ip tail : Str) (rest : Bytes) (reader : BufReader)
    → IsWord family
    → IsWord ip
    → IsPrinted tail
    → length (line_of family ip tail) < max_len
    → content reader ≡ line_of family ip tail ++ b'\n' ∷ rest
    → (r : BufReader) × (read_proxy_v1_header max_len reader ≡ ok (ip, r))
      × (content r ≡ rest)
      × (r.ending ≡ reader.ending)
read_proxy_v1_header-line_of max_len family ip tail rest reader fam word printed short e =
    let (r, read, (behind, same)) =
      read_proxy_v1_header-Has_line_of (all_of reader.ending) max_len family ip tail rest reader fam
        word printed short (e, refl) in
    (r, read, behind, same)
