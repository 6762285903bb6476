-- ===== src/Proxy/Forward/Reference/Round.antt =====
-- One round of `client_to_server` in core/rust/src/proxy.rs, on any bytes.
use pg_prism.Prelude.{
  leb→le, ℕ, ◌-◌, ◌*◌, ◌/◌, ◌<◌, true, false, [], ◌∷◌, ◌++◌, ◌≡◌, ◌⊎◌, refl, sym, ap, ◌∙◌, arith,
  leb, if◌then◌else◌, length, length-take, take, drop, take-append-drop, length-drop, append_assoc,
  Bool-cases, inl, inr,
}
use pg_prism.Text.{Bytes}
use pg_prism.Wire.{from_be_bytes}
use pg_prism.Guardian.Rules.{ConnectionContext}
use pg_prism.Guardian.Query.{check_query}
use pg_prism.Proxy.Stream.{BufReader, ReadResult, ended, read_exact, content, Outgoing}
use pg_prism.Proxy.Forward.{
  case_read, stop_at, on_query, ending_of, Taken, sent_on, held_back, ends, exhausted, is_inspected,
  forward_inspected, forward_blind, take_one,
}
use pg_prism.Proxy.Forward.Copy.{
  Works, read_all, write_all-Sent, write_both-Sent, copy_blind-Copied,
}
use pg_prism.Proxy.Forward.Reference.{
  Front, passes, blocked, cut, whole_front, short_front, front_of,
}
use pg_prism.Proxy.Forward.Reference.Short.{read_take, read_short, copy_blind-Shortened}

-- The round does what the front of the bytes says.
abbrev pub TakesAs : Front → BufReader → Outgoing → Taken → Type 0
TakesAs (passes message rest) reader up x =
    (r : BufReader) × (up' : Outgoing) × (x ≡ sent_on r up')
    × (content r ≡ rest)
    × (r.ending ≡ reader.ending)
    × (up'.sent ≡ up.sent ++ message)
    × Works up'
TakesAs (blocked rest) reader up x =
    (r : BufReader) × (x ≡ held_back r) × (content r ≡ rest) × (r.ending ≡ reader.ending)
TakesAs (cut part) reader up x =
    ((x ≡ ends (ending_of reader.ending) (exhausted reader.ending) up) × (part ≡ []))
    ⊎ ((r : BufReader) × (up' : Outgoing) × (x ≡ sent_on r up')
        × (content r ≡ [])
        × (r.ending ≡ reader.ending)
        × (up'.sent ≡ up.sent ++ part)
        × Works up')

module _ (context : ConnectionContext) (reader : BufReader) (up : Outgoing) (works : Works up) where
  inspected-TakesAs :
      (r2 : BufReader) (msg_type len_bytes : Bytes) (n : ℕ)
      → r2.ending ≡ reader.ending
      → TakesAs
          (if leb n (length (content r2))
            then whole_front context true
                (msg_type ++ len_bytes)
                (take n (content r2))
                (drop n (content r2))
            else short_front true (msg_type ++ len_bytes) (content r2))
          reader
          up
          (case_read
            (read_exact r2 n)
            (stop_at up)
            (λ query r3. on_query (check_query query context) r3 up msg_type len_bytes query))
  unfolding forward_inspected
  inspected-TakesAs r2 msg_type len_bytes n same = elim (Bool-cases (leb n (length (content r2)))) [
    | inr short ↦ rw (short, read_short r2 n (ground (arith, short)), same) (inl (refl, refl))
    | inl enough ↦
        let query = take n (content r2) in
        let (r3, read, behind, same') = read_take r2 n (ground (arith, enough)) in
        elim (Bool-cases (check_query query context)) [
          | inr no_pass ↦ rw (enough, read, no_pass) (r3, refl, behind, same' ∙ same)
          | inl pass ↦
              let (up1, wrote1, sent1, works1) = write_both-Sent up msg_type len_bytes works in
              let (up2, wrote2, sent2, works2) = write_all-Sent up1 query works1 in
              rw (enough, read, pass, wrote1, wrote2)
                (
                  r3,
                  up2,
                  refl,
                  behind,
                  same' ∙ same,
                  sent2
                      ∙ ap (λ (b : Bytes). b ++ query) sent1
                      ∙ append_assoc up.sent (msg_type ++ len_bytes) query,
                  works2,
                )
        ]
  ]

  blind-TakesAs :
      (r2 : BufReader) (msg_type len_bytes : Bytes) (n : ℕ)
      → r2.ending ≡ reader.ending
      → TakesAs
          (if leb n (length (content r2))
            then whole_front context false
                (msg_type ++ len_bytes)
                (take n (content r2))
                (drop n (content r2))
            else short_front false (msg_type ++ len_bytes) (content r2))
          reader
          up
          (forward_blind r2 up msg_type len_bytes n)
  unfolding forward_blind
  blind-TakesAs r2 msg_type len_bytes n same =
      let (up1, wrote1, sent1, works1) = write_both-Sent up msg_type len_bytes works in
      elim (Bool-cases (leb n (length (content r2)))) [
        | inr short ↦
            let (none_left, same', sent2, works2) =
              copy_blind-Shortened n n r2 up1 (ground (arith, short)) (omega arith) works1 in
            rw (short, wrote1)
              (inr (
                _,
                _,
                refl,
                none_left,
                same' ∙ same,
                sent2
                    ∙ ap (λ (b : Bytes). b ++ take (length (content r2) / 8192 * 8192) (content r2))
                        sent1
                    ∙ append_assoc up.sent (msg_type ++ len_bytes) _,
                works2,
              ))
        | inl enough ↦
            let body = take n (content r2) in
            let (behind, same', sent2, works2) =
              copy_blind-Copied n n body (drop n (content r2)) r2 up1
                (omega (arith, length-take n (content r2), leb→le n (length (content r2)) enough))
                (omega arith) (sym (take-append-drop n (content r2))) works1 in
            rw (enough, wrote1)
              (
                _,
                _,
                refl,
                behind,
                same' ∙ same,
                sent2
                    ∙ ap (λ (b : Bytes). b ++ body) sent1
                    ∙ append_assoc up.sent (msg_type ++ len_bytes) body,
                works2,
              )
      ]

  stops-TakesAs :
      (x : ReadResult) (f : Bytes → BufReader → Taken)
      → x ≡ ended reader.ending
      → TakesAs (cut []) reader up (case_read x (stop_at up) f)
  stops-TakesAs x f e = rw e (inl (refl, refl))

  -- Fewer than five bytes.
  few-TakesAs :
      length (content reader) < 5 → TakesAs (cut []) reader up (take_one context reader up)
  unfolding take_one
  few-TakesAs few = elim (Bool-cases (leb 1 (length (content reader)))) [
    | inr nothing ↦ stops-TakesAs _ _ (read_short reader 1 (ground (arith, nothing)))
    | inl something ↦
        let (r1, read, behind, same) = read_take reader 1 (ground (arith, something)) in
        let fewer : length (content r1) < 4 =
          omega (arith, ap (λ (b : Bytes). length b) behind, length-drop 1 (content reader), few) in
        rw read (stops-TakesAs _ _ (read_short r1 4 fewer ∙ ap ended same))
  ]

  pub take_one-TakesAs :
      (bytes : Bytes)
      → content reader ≡ bytes
      → TakesAs (front_of context bytes) reader up (take_one context reader up)
  unfolding take_one
  take_one-TakesAs [] e = few-TakesAs (rw e (omega arith))
  take_one-TakesAs (t ∷ []) e = few-TakesAs (rw e (omega arith))
  take_one-TakesAs (t ∷ a ∷ []) e = few-TakesAs (rw e (omega arith))
  take_one-TakesAs (t ∷ a ∷ b ∷ []) e = few-TakesAs (rw e (omega arith))
  take_one-TakesAs (t ∷ a ∷ b ∷ c ∷ []) e = few-TakesAs (rw e (omega arith))
  take_one-TakesAs (t ∷ a ∷ b ∷ c ∷ d ∷ bytes) e =
      let (r1, read1, behind1, same1) =
        read_all (t ∷ []) (a ∷ b ∷ c ∷ d ∷ bytes) reader 1 (omega arith) e in
      let (r2, read2, behind2, same2) =
        read_all (a ∷ b ∷ c ∷ d ∷ []) bytes r1 4 (omega arith) behind1 in
      let n = from_be_bytes a b c d - 4 in
      elim (Bool-cases (is_inspected t n)) [
        | inl seen ↦
            rw (read1, read2, seen, ← behind2)
              (inspected-TakesAs r2 (t ∷ []) (a ∷ b ∷ c ∷ d ∷ []) n (same2 ∙ same1))
        | inr blind ↦
            rw (read1, read2, blind, ← behind2)
              (blind-TakesAs r2 (t ∷ []) (a ∷ b ∷ c ∷ d ∷ []) n (same2 ∙ same1))
      ]
