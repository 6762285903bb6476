-- ===== src/Proxy/Stream/Ahead.antt =====
-- How much `BufReader` has read ahead: the rest of the piece in which the last byte that was asked for
-- arrived, and nothing behind it.
use mathlib.Core.Path.{subst}
use pg_prism.Prelude.{
  ℕ, zero, suc, ◌+◌, ◌-◌, ◌<◌, true, false, Bool-cases, List, [], ◌∷◌, ◌++◌, ◌≡◌, ◌≢◌, ◌⊎◌, inl,
  inr, refl, sym, ap, ◌∙◌, arith, leb, length, length-append, take, drop, length-take,
  take-append-drop, append_assoc,
}
use pg_prism.Text.{Bytes}
use pg_prism.Proxy.Stream.{
  End, BufReader, ReadResult, got, ended, behind, read_from, read_exact, content,
}
use pg_prism.Proxy.Stream.Waiting.{read_from-fits, read_from-short}
use pg_prism.Proxy.Stream.Supply.{Supply}
use pg_prism.Proxy.Forward.Copy.{read_all}

-- Of the pieces of a socket, these are left, and one was read in part: `buffer` is behind that part.
pub record Within (chunks : List Bytes) (part buffer : Bytes) (left : List Bytes) : Type 0 where
  pub earlier : List Bytes
  pub chunks_are : chunks ≡ earlier ++ ((part ++ buffer) ∷ left)

-- Some of the piece was asked for, and `buffer` is the rest of it.
pub record Ahead (chunks : List Bytes) (buffer : Bytes) (left : List Bytes) : Type 0 where
  pub part : Bytes
  pub some_read : 0 < length part
  pub within : Within chunks part buffer left

abbrev pub Stands : List Bytes → BufReader → Type 0
Stands chunks r = ((r.chunks ≡ chunks) × (r.buffer ≡ [])) ⊎ Ahead chunks r.buffer r.chunks

behind_got :
    (buffer x : Bytes) (result : ReadResult) (r : BufReader)
    → behind buffer result ≡ got x r
    → (x' : Bytes) × (result ≡ got x' r)
behind_got buffer x (got more r') r e = (more, ap (λ (b : BufReader). got more b) (cc e))
behind_got buffer x (ended y) r e = absurd (cc e)

got_inj : (x y : Bytes) (r s : BufReader) → got x r ≡ got y s → r ≡ s
got_inj x y r s e = cc e

module _ (chunks : List Bytes) where
  fits-Ahead :
      (part buffer : Bytes) (left : List Bytes) (n : ℕ)
      → 0 < length part + n
      → leb n (length buffer) ≡ true
      → Within chunks part buffer left
      → Ahead chunks (drop n buffer) left
  fits-Ahead part buffer left n some fits w = record {
    part = part ++ take n buffer;
    some_read =
        ground (arith, some, fits, length-append part (take n buffer), length-take n buffer);
    within = record {
      earlier = w.earlier;
      chunks_are =
          w.chunks_are
          ∙ ap (λ (piece : Bytes). w.earlier ++ (piece ∷ left))
              (ap (λ (b : Bytes). part ++ b) (sym (take-append-drop n buffer))
                ∙ sym (append_assoc part (take n buffer) (drop n buffer)));
    };
  }

  Within-next :
      (part buffer chunk : Bytes) (left : List Bytes)
      → Within chunks part buffer (chunk ∷ left)
      → Within chunks [] chunk left
  Within-next part buffer chunk left w = record {
    earlier = w.earlier ++ ((part ++ buffer) ∷ []);
    chunks_are = w.chunks_are ∙ sym (append_assoc w.earlier ((part ++ buffer) ∷ []) (chunk ∷ left));
  }

  read_from-Ahead :
      (left : List Bytes) (part buffer x : Bytes) (ending : End) (n : ℕ) (r : BufReader)
      → 0 < length part + n
      → Within chunks part buffer left
      → read_from buffer left ending n ≡ got x r
      → Ahead chunks r.buffer r.chunks
  unfolding read_from
  read_from-Ahead [] part buffer x ending n r some w e = elim (Bool-cases (leb n (length buffer))) [
    | inl fits ↦
        subst (λ (r : BufReader). Ahead chunks r.buffer r.chunks)
          (got_inj _ _ _ _ (sym (read_from-fits buffer [] ending n fits) ∙ e))
          (fits-Ahead part buffer [] n some fits w)
    | inr short ↦ absurd (cc (rw short at e))
  ]
  read_from-Ahead (chunk ∷ left) part buffer x ending n r some w e =
      elim (Bool-cases (leb n (length buffer))) [
        | inl fits ↦
            subst (λ (r : BufReader). Ahead chunks r.buffer r.chunks)
              (got_inj _ _ _ _ (sym (read_from-fits buffer (chunk ∷ left) ending n fits) ∙ e))
              (fits-Ahead part buffer (chunk ∷ left) n some fits w)
        | inr short ↦
            let (x', e') =
              behind_got buffer x _ r
                (sym (read_from-short buffer chunk left ending n short) ∙ e) in
            read_from-Ahead left [] chunk x' ending (n - length buffer) r (ground (arith, short))
              (Within-next part buffer chunk left w) e'
      ]

  nothing_read :
      (x : Bytes) (ending : End) (n : ℕ) (r : BufReader) → read_from [] [] ending (suc n) ≢ got x r
  unfolding read_from
  nothing_read x ending n r e =
      let short : leb (suc n) 0 ≡ false = ground arith in absurd (cc (rw short at e))

  -- The first read from the socket.
  first-Stands :
      (x : Bytes) (ending : End) (n : ℕ) (r : BufReader)
      → read_from [] chunks ending n ≡ got x r
      → Stands chunks r
  unfolding read_from
  first-Stands x ending zero r e =
      subst (λ (r : BufReader). Stands chunks r)
        (got_inj _ _ _ _ (sym (read_from-fits [] chunks ending 0 refl) ∙ e)) (inl (refl, refl))
  first-Stands x ending (suc n) r e = by_pieces chunks refl e
    where
      by_pieces :
          (left : List Bytes)
          → chunks ≡ left
          → read_from [] left ending (suc n) ≡ got x r
          → Stands chunks r
      by_pieces [] same e = absurd (nothing_read x ending n r e)
      by_pieces (chunk ∷ left) same e =
          let (x', e') =
            behind_got [] x (read_from chunk left ending (suc n - length {A = ℕ} [])) r
              (sym (read_from-short [] chunk left ending (suc n) (ground arith)) ∙ e) in
          inr (
            read_from-Ahead left [] chunk x' ending (suc n - length {A = ℕ} []) r (omega arith)
              (record { earlier = []; chunks_are = same }) e')

  pub read_exact-Stands :
      (x : Bytes) (reader : BufReader) (n : ℕ) (r : BufReader)
      → Stands chunks reader
      → read_exact reader n ≡ got x r
      → Stands chunks r
  unfolding read_exact
  read_exact-Stands x reader n r (inl (all, none)) e = first-Stands x reader.ending n r (
      ap (λ (b : Bytes). read_from b chunks reader.ending n) (sym none)
      ∙ ap (λ (c : List Bytes). read_from reader.buffer c reader.ending n) (sym all)
      ∙ e)
  read_exact-Stands x reader n r (inr ahead) e = inr (
      read_from-Ahead reader.chunks ahead.part reader.buffer x reader.ending n r
        (omega (arith, ahead.some_read)) ahead.within e)

abbrev pub ahead_of : List Bytes → End → Supply
ahead_of chunks ending = record {
  Has = λ bytes reader. (content reader ≡ bytes) × (reader.ending ≡ ending) × Stands chunks reader;
  serve = λ x y reader n len has.
      let (r, read, behind, same) = read_all x y reader n len has.0 in
      (r, read, (behind, same ∙ has.1, read_exact-Stands chunks x reader n r has.2 read));
}
