-- ===== src/Guardian/Token/Matches.antt =====
-- The token search against its meaning: a token is a stretch of the statement with no identifier
-- byte next to it.
use pg_prism.Prelude.{
  ℕ, zero, suc, ◌+◌, ◌-◌, ◌≤◌, ◌<◌, Bool, true, false, ◌&&◌, [], ◌∷◌, ◌++◌, ◌≡◌, ◌≢◌, ◌↔◌, inl, inr,
  refl, sym, ap, ◌∙◌, arith, ltb, Bool-cases, length, length-append, take, drop, take-append-drop,
  take-length_append, drop-length_append,
}
use pg_prism.Text.{Bytes}
use pg_prism.Guardian.Token.{
  is_identifier_byte, eq_ignore_ascii_case, byte_at, token_at, scan,
  contains_token_ignore_ascii_case,
}

-- Does the text begin, or end, with an identifier byte?
unfoldable pub begins_in_word : Bytes → Bool
begins_in_word [] = false
begins_in_word (b ∷ bs) = is_identifier_byte b

unfoldable pub ends_in_word : Bytes → Bool
ends_in_word [] = false
ends_in_word (b ∷ []) = is_identifier_byte b
ends_in_word (b ∷ c ∷ bs) = ends_in_word (c ∷ bs)

-- The statement holds the needle, up to ASCII case, as a whole token.
pub record HasToken (haystack needle : Bytes) : Type 0 where
  pub before : Bytes
  pub token : Bytes
  pub after : Bytes
  pub splits : haystack ≡ before ++ (token ++ after)
  pub same : eq_ignore_ascii_case token needle ≡ true
  pub free_before : ends_in_word before ≡ false
  pub free_after : begins_in_word after ≡ false

length-eq_ignore_ascii_case : (a b : Bytes) → eq_ignore_ascii_case a b ≡ true → length a ≡ length b
unfolding eq_ignore_ascii_case
length-eq_ignore_ascii_case (x ∷ a) (y ∷ b) h = ground (arith, length-eq_ignore_ascii_case a b)
length-eq_ignore_ascii_case [] [] h = refl
length-eq_ignore_ascii_case [] (y ∷ b) h = ground arith
length-eq_ignore_ascii_case (x ∷ a) [] h = ground arith

begins_in_word-drop :
    (h : Bytes) (k : ℕ)
    → begins_in_word (drop k h) ≡ (ltb k (length h) && is_identifier_byte (byte_at h k))
unfolding begins_in_word
begins_in_word-drop [] zero = ground arith
begins_in_word-drop [] (suc k) = ground arith
begins_in_word-drop (b ∷ h) zero = ground arith
begins_in_word-drop (b ∷ h) (suc k) = ground (arith, begins_in_word-drop h k)

ends_in_word-take :
    (h : Bytes) (k : ℕ)
    → k < length h
    → ends_in_word (take (suc k) h) ≡ is_identifier_byte (byte_at h k)
unfolding ends_in_word
ends_in_word-take [] k lt = absurd (omega arith)
ends_in_word-take (b ∷ []) zero lt = refl
ends_in_word-take (b ∷ c ∷ h) zero lt = refl
ends_in_word-take (b ∷ []) (suc k) lt = absurd (omega arith)
ends_in_word-take (b ∷ c ∷ h) (suc k) lt = ends_in_word-take (c ∷ h) k (omega arith)

-- The test in front of the token, at any index in the statement.
word_before :
    (h : Bytes) (k : ℕ)
    → k ≤ length h
    → ends_in_word (take k h) ≡ (ltb 0 k && is_identifier_byte (byte_at h (k - 1)))
word_before h zero le = unfold ends_in_word in ground arith
word_before h (suc k) le =
    let pos : ltb 0 (suc k) ≡ true = ground arith in
    let pred : suc k - 1 ≡ k = omega arith in rw (pos, pred) (ends_in_word-take h k le)

drop-nil : (n : ℕ) → drop {A = ℕ} n [] ≡ []
drop-nil zero = refl
drop-nil (suc n) = refl

drop-drop : (n m : ℕ) (h : Bytes) → drop n (drop m h) ≡ drop (m + n) h
drop-drop n zero h = let e : zero + n ≡ n = omega arith in rw e refl
drop-drop n (suc m) [] = drop-nil n ∙ sym (drop-nil (suc m + n))
drop-drop n (suc m) (x ∷ h) =
    let e : suc m + n ≡ suc (m + n) = omega arith in rw e (drop-drop n m h)

-- A hit of the loop's body is a token.
token_at-HasToken :
    (haystack needle : Bytes) (start : ℕ)
    → start ≤ length haystack
    → token_at haystack needle start ≡ true
    → HasToken haystack needle
unfolding token_at
token_at-HasToken haystack needle start le h =
    let n = length needle in
    let behind = drop start haystack in
    record {
      before = take start haystack;
      token = take n behind;
      after = drop n behind;
      splits =
          sym (take-append-drop start haystack)
          ∙ ap (◌++◌ (take start haystack)) (sym (take-append-drop n behind));
      same = ground arith;
      free_before = rw (word_before haystack start le) (ground arith);
      free_after =
          rw (drop-drop n start haystack, begins_in_word-drop haystack (start + n)) (ground arith);
    }

scan-HasToken :
    (rounds : ℕ) (haystack needle : Bytes) (start : ℕ)
    → start + rounds ≤ length haystack + 1
    → scan rounds haystack needle start ≡ true
    → HasToken haystack needle
unfolding scan
scan-HasToken zero haystack needle start le h = absurd (cc h)
scan-HasToken (suc rounds) haystack needle start le h =
    elim (Bool-cases (token_at haystack needle start)) [
      | inl hit ↦ token_at-HasToken haystack needle start (omega arith) hit
      | inr miss ↦ scan-HasToken rounds haystack needle (start + 1) (omega arith) (rw miss at h)
    ]

-- A token is a hit at its place.
HasToken-token_at :
    (before token after needle : Bytes)
    → eq_ignore_ascii_case token needle ≡ true
    → ends_in_word before ≡ false
    → begins_in_word after ≡ false
    → token_at (before ++ (token ++ after)) needle (length before) ≡ true
unfolding token_at
HasToken-token_at before token after needle same fb fa =
    let h = before ++ (token ++ after) in
    let len : length token ≡ length needle = length-eq_ignore_ascii_case token needle same in
    let fits : length before ≤ length h = omega (arith, length-append before (token ++ after)) in
    let tail : drop (length before + length token) h ≡ after =
      sym (drop-drop (length token) (length before) h)
      ∙ rw (drop-length_append before (token ++ after)) (drop-length_append token after) in
    let w = word_before h (length before) fits in
    let b : (ltb 0 (length before) && is_identifier_byte (byte_at h (length before - 1))) ≡ false =
      sym w ∙ rw (take-length_append before (token ++ after)) fb in
    let a : (ltb (length before + length token) (length h)
          && is_identifier_byte (byte_at h (length before + length token)))
        ≡ false =
      sym (begins_in_word-drop h (length before + length token)) ∙ rw tail fa in
    rw
      (
        drop-length_append before (token ++ after),
        ← len,
        take-length_append token after,
        same,
        a,
        b,
      )
      refl

scan_hit :
    (rounds : ℕ) (haystack needle : Bytes) (start i : ℕ)
    → start ≤ i
    → i < start + rounds
    → token_at haystack needle i ≡ true
    → scan rounds haystack needle start ≡ true
unfolding scan
scan_hit zero haystack needle start i le lt h = absurd (omega arith)
scan_hit (suc rounds) haystack needle start i le lt h =
    elim (Bool-cases (token_at haystack needle start)) [
      | inl hit ↦ rw hit refl
      | inr miss ↦
          rw miss (scan_hit rounds haystack needle (start + 1) i (later miss) (omega arith) h)
    ]
  where
    later : token_at haystack needle start ≡ false → start + 1 ≤ i
    later miss = ground (arith)

HasToken-length :
    (haystack needle : Bytes) (t : HasToken haystack needle)
    → length t.before + length needle ≤ length haystack
HasToken-length haystack needle t =
    let h = ap length t.splits in
    let n = length-eq_ignore_ascii_case t.token needle t.same in
    omega (arith, h, n, length-append t.before (t.token ++ t.after), length-append t.token t.after)

HasToken-scan :
    (haystack needle : Bytes)
    → HasToken haystack needle
    → scan (length haystack - length needle + 1) haystack needle 0 ≡ true
HasToken-scan haystack needle t =
    let fits = HasToken-length haystack needle t in
    let hit = HasToken-token_at t.before t.token t.after needle t.same t.free_before t.free_after in
    scan_hit (length haystack - length needle + 1) haystack needle 0 (length t.before) (omega arith)
      (omega arith) (rw t.splits hit)

pub contains_token_ignore_ascii_case_iff :
    (haystack needle : Bytes)
    → (contains_token_ignore_ascii_case haystack needle ≡ true)
      ↔ ((needle ≢ []) × HasToken haystack needle)
unfolding contains_token_ignore_ascii_case
contains_token_ignore_ascii_case_iff haystack [] = (λ h. cc h, λ h. absurd (h.0 refl))
contains_token_ignore_ascii_case_iff haystack (x ∷ needle) =
    elim (Bool-cases (ltb (length haystack) (length (x ∷ needle)))) [
      | inl short ↦ rw short (λ h. cc h, λ h. absurd (not_short (h.1) short))
      | inr long ↦ rw long (
        λ h. (
          λ e. cc e,
          scan-HasToken (length haystack - length (x ∷ needle) + 1) haystack (x ∷ needle) 0
              (ground arith) h,
        ),
        λ h. HasToken-scan haystack (x ∷ needle) h.1,
      )
    ]
  where
    not_short :
        HasToken haystack (x ∷ needle) → ltb (length haystack) (length (x ∷ needle)) ≡ true → ⊥
    not_short t short = ground (arith, HasToken-length haystack (x ∷ needle) t)
