-- ===== src/Proxy/Header/Words.antt =====
-- The words of a PROXY v1 header, and how `parse_header` of core/rust/src/proxy.rs finds the address.
use pg_prism.Prelude.{
  ◌⊎◌, append-nil, ℕ, ◌≤◌, ◌<◌, true, false, [], ◌∷◌, ◌++◌, ◌≡◌, ◌≢◌, refl, arith, append_assoc,
  All, inl, inr, is_empty,
}
use pg_prism.Text.{Str, Bytes, codes, is_whitespace, trim, trim_end, keep_or_drop, starts_with}
use pg_prism.Text.Split.{split, split-append, split_last}
use pg_prism.Text.Utf8.{from_utf8_lossy-of_ascii}
use pg_prism.Proxy.Header.{ok, third_word, parse_header}

-- `PROXY`, the protocol family, the source address, whatever follows, and the end of the line.
abbrev pub line_of : Str → Str → Str → Bytes
line_of family ip tail =
    codes "PROXY" ++ (b' ' ∷ (family ++ (b' ' ∷ (ip ++ (b' ' ∷ (tail ++ (b'\r' ∷ [])))))))

abbrev pub IsPrinted : Str → Type 0
IsPrinted s = All (λ c. (0x20 ≤ c) × (c < 0x7F)) s

-- A word: printable ASCII with no blank in it, and not empty.
abbrev pub IsWord : Str → Type 0
IsWord [] = ⊥
IsWord (c ∷ s) = All (λ c. (0x20 < c) × (c < 0x7F)) (c ∷ s)

keep_lem : (c : ℕ) (s : Str) → 0x20 < c → c < 0x7F → keep_or_drop c s ≡ c ∷ s
unfolding is_whitespace
keep_lem c [] lo hi = ground (arith)
keep_lem c (d ∷ s) lo hi = refl

trim_end-word :
    (w s : Str) → All (λ c. (0x20 < c) × (c < 0x7F)) w → trim_end (w ++ s) ≡ w ++ trim_end s
unfolding trim_end
trim_end-word [] s h = refl
trim_end-word (c ∷ w) s ((lo, hi), h) =
    rw (trim_end-word w s h) (keep_lem c (w ++ trim_end s) lo hi)

-- A text that is trimmed behind a blank is empty, or starts with the blank.
trim_end-blank :
    (s : Str) → (trim_end (b' ' ∷ s) ≡ []) ⊎ ((t : Str) × (trim_end (b' ' ∷ s) ≡ b' ' ∷ t))
unfolding trim_end is_whitespace
trim_end-blank s = kept (trim_end s)
  where
    kept : (t : Str) → (keep_or_drop b' ' t ≡ []) ⊎ ((u : Str) × (keep_or_drop b' ' t ≡ b' ' ∷ u))
    kept [] = inl refl
    kept (d ∷ t) = inr (d ∷ t, refl)

-- A blank before a word stays.
trim_end-before : (w s : Str) → IsWord w → trim_end (b' ' ∷ (w ++ s)) ≡ b' ' ∷ (w ++ trim_end s)
unfolding trim_end
trim_end-before [] s h = elim h [ ]
trim_end-before (c ∷ w) s h = rw (trim_end-word (c ∷ w) s h) refl

no_blank : (w : Str) → All (λ c. (0x20 < c) × (c < 0x7F)) w → All (λ c. c ≢ b' ') w
no_blank [] h = tt
no_blank (c ∷ w) ((lo, hi), h) = (omega (arith, lo), no_blank w h)

pub word-All : (w : Str) → IsWord w → All (λ c. (0x20 < c) × (c < 0x7F)) w
word-All [] h = elim h [ ]
word-All (c ∷ w) h = h

abbrev pub proxy_word : Str
proxy_word = codes "PROXY"

pub proxy_word-IsWord : IsWord proxy_word
proxy_word-IsWord = ground arith

-- The third word, whatever stands behind it.
third_word-ip :
    (family ip y : Str)
    → IsWord family
    → IsWord ip
    → (y ≡ []) ⊎ ((t : Str) × (y ≡ b' ' ∷ t))
    → third_word (split b' ' (proxy_word ++ (b' ' ∷ (family ++ (b' ' ∷ (ip ++ y)))))) ≡ ip
third_word-ip family ip y fam word (inl e) =
    rw
      (
        e,
        append-nil ip,
        split-append b' ' proxy_word (family ++ (b' ' ∷ ip))
            (no_blank proxy_word proxy_word-IsWord),
        split-append b' ' family ip (no_blank family (word-All family fam)),
        split_last b' ' ip (no_blank ip (word-All ip word)),
      )
      refl
third_word-ip family ip y fam word (inr (t, e)) =
    rw
      (
        e,
        split-append b' ' proxy_word (family ++ (b' ' ∷ (ip ++ (b' ' ∷ t))))
            (no_blank proxy_word proxy_word-IsWord),
        split-append b' ' family (ip ++ (b' ' ∷ t)) (no_blank family (word-All family fam)),
        split-append b' ' ip t (no_blank ip (word-All ip word)),
      )
      refl

-- The line is the words, with the end of the line behind them.
pub words_of : Str → Str → Bytes → Bytes
words_of family ip rest = proxy_word ++ (b' ' ∷ (family ++ (b' ' ∷ (ip ++ (b' ' ∷ rest)))))

pub line_of-words :
    (family ip tail : Str)
    → line_of family ip tail ++ (b'\n' ∷ [])
      ≡ words_of family ip ((tail ++ (b'\r' ∷ [])) ++ (b'\n' ∷ []))
unfolding words_of
line_of-words family ip tail = simp append_assoc

begins_proxy :
    (family ip : Str) (rest : Bytes) → starts_with (words_of family ip rest) proxy_word ≡ true
unfolding words_of starts_with
begins_proxy family ip rest = refl

trim-words :
    (family ip : Str) (rest : Bytes)
    → IsWord family
    → IsWord ip
    → trim (words_of family ip rest)
      ≡ proxy_word ++ (b' ' ∷ (family ++ (b' ' ∷ (ip ++ trim_end (b' ' ∷ rest)))))
unfolding words_of trim
trim-words family ip rest fam word =
    rw
      (
        trim_end-word proxy_word (b' ' ∷ (family ++ (b' ' ∷ (ip ++ (b' ' ∷ rest)))))
            proxy_word-IsWord,
        trim_end-before family (b' ' ∷ (ip ++ (b' ' ∷ rest))) fam,
        trim_end-before ip (b' ' ∷ rest) word,
      )
      refl

is_empty-word : (w : Str) → IsWord w → is_empty w ≡ false
is_empty-word [] h = elim h [ ]
is_empty-word (c ∷ w) h = refl

pub parse_header-words :
    (family ip : Str) (rest : Bytes)
    → IsWord family
    → IsWord ip
    → All (λ c. c < 0x80) (words_of family ip rest)
    → parse_header (words_of family ip rest) ≡ ok ip
unfolding parse_header
parse_header-words family ip rest fam word ascii =
    rw
      (
        from_utf8_lossy-of_ascii (words_of family ip rest) ascii,
        begins_proxy family ip rest,
        trim-words family ip rest fam word,
        third_word-ip family ip (trim_end (b' ' ∷ rest)) fam word (trim_end-blank rest),
        is_empty-word ip word,
      )
      refl
