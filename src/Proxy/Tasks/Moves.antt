-- ===== src/Proxy/Tasks/Moves.antt =====
-- What the server has been sent behind one round of `client_to_server`.
use mathlib.Core.Path.{subst}
use pg_prism.Prelude.{[], refl, ℕ, ◌+◌, ◌++◌, ◌≡◌, inl, inr, sym, ap, ◌∙◌, append_assoc, append-nil}
use pg_prism.Text.{Bytes}
use pg_prism.Guardian.Rules.{ConnectionContext}
use pg_prism.Proxy.Stream.{BufReader, content, Outgoing}
use pg_prism.Proxy.Forward.{half_closed, exhausted, Taken, sent_on, held_back, ends}
use pg_prism.Proxy.Forward.Reference.{Front, passes, blocked, cut, front_of}
use pg_prism.Proxy.Forward.Reference.Round.{TakesAs}
use pg_prism.Proxy.Tasks.{State}
use pg_prism.Proxy.Forward.Copy.{Works, append_cancel}
use pg_prism.Proxy.Tasks.{
  UpPc, up_reading, up_locking, up_refusing, up_readying, up_done, up_dropped,
}
use pg_prism.Proxy.Tasks.Invariant.{
  ServerSide, Opens, Progress, one_passed, one_held, one_cut, ToServer,
}

module _ (context : ConnectionContext) (init : State) where
  module _ (reader : BufReader) (upstream : Outgoing) (held : ℕ)
      (old : ToServer context init reader upstream held) where
    -- What the round did, by the front of the bytes.
    pub ToServer-sent_on :
        (front : Front) (x : Taken) (r : BufReader) (up' : Outgoing)
        → front_of context (content reader) ≡ front
        → TakesAs front reader upstream x
        → x ≡ sent_on r up'
        → ToServer context init r up' held
    ToServer-sent_on (passes message rest) x r up' is (r0, up0, e, behind, same, sent, works)
          taken =
        let readers : r0 ≡ r = cc (e, taken) in
        let ups : up0 ≡ up' = cc (e, taken) in
        subst (λ r. ToServer context init r up' held) readers
          (subst (λ up. ToServer context init r0 up held) ups
            (record {
              to_server = old.to_server ++ message;
              progress =
                  subst (Progress context _ _ held) (sym behind)
                    (one_passed message rest old.progress is);
              up_sent =
                  sent
                  ∙ ap (λ (b : Bytes). b ++ message) old.up_sent
                  ∙ append_assoc init.upstream.sent old.to_server message;
              up_works = works;
            }))
    ToServer-sent_on (blocked rest) x r up' is (r0, e, behind, same) taken = absurd (cc (e, taken))
    ToServer-sent_on (cut part) x r up' is (inl (e, nothing)) taken = absurd (cc (e, taken))
    ToServer-sent_on (cut part) x r up' is (inr (r0, up0, e, behind, same, sent, works)) taken =
        let readers : r0 ≡ r = cc (e, taken) in
        let ups : up0 ≡ up' = cc (e, taken) in
        subst (λ r. ToServer context init r up' held) readers
          (subst (λ up. ToServer context init r0 up held) ups
            (record {
              to_server = old.to_server ++ part;
              progress =
                  subst (Progress context _ _ held) (sym behind) (one_cut part old.progress is);
              up_sent =
                  sent
                  ∙ ap (λ (b : Bytes). b ++ part) old.up_sent
                  ∙ append_assoc init.upstream.sent old.to_server part;
              up_works = works;
            }))

    pub ToServer-held_back :
        (front : Front) (x : Taken) (r : BufReader)
        → front_of context (content reader) ≡ front
        → TakesAs front reader upstream x
        → x ≡ held_back r
        → ToServer context init r upstream (held + 1)
    ToServer-held_back (passes message rest) x r is (r0, up0, e, behind, same, sent, works) taken =
        absurd (cc (e, taken))
    ToServer-held_back (cut part) x r is (inl (e, nothing)) taken = absurd (cc (e, taken))
    ToServer-held_back (cut part) x r is (inr (r0, up0, e, behind, same, sent, works)) taken =
        absurd (cc (e, taken))
    ToServer-held_back (blocked rest) x r is (r0, e, behind, same) taken =
        let readers : r0 ≡ r = cc (e, taken) in
        subst (λ r. ToServer context init r upstream (held + 1)) readers
          (record {
            to_server = old.to_server;
            progress =
                subst (Progress context _ _ (held + 1)) (sym behind)
                  (one_held rest old.progress is);
            up_sent = old.up_sent;
            up_works = old.up_works;
          })

    pub ToServer-ends :
        (front : Front) (x : Taken) (r : BufReader) (up' : Outgoing)
        → front_of context (content reader) ≡ front
        → TakesAs front reader upstream x
        → x ≡ ends half_closed r up'
        → ToServer context init r up' held
    unfolding content
    ToServer-ends (passes message rest) x r up' is (r0, up0, e, behind, same, sent, works) taken =
        absurd (cc (e, taken))
    ToServer-ends (blocked rest) x r up' is (r0, e, behind, same) taken = absurd (cc (e, taken))
    ToServer-ends (cut part) x r up' is (inr (r0, up0, e, behind, same, sent, works)) taken =
        absurd (cc (e, taken))
    ToServer-ends (cut part) x r up' is (inl (e, nothing)) taken =
        let readers : exhausted reader.ending ≡ r = cc (e, taken) in
        let ups : upstream ≡ up' = cc (e, taken) in
        subst (λ r. ToServer context init r up' held) readers
          (subst (λ up. ToServer context init (exhausted reader.ending) up held) ups
            (record {
              to_server = old.to_server ++ part;
              progress = one_cut part old.progress is;
              up_sent =
                  old.up_sent
                  ∙ ap (λ (b : Bytes). init.upstream.sent ++ b)
                      (sym (append-nil old.to_server)
                        ∙ ap (λ (b : Bytes). old.to_server ++ b) (sym nothing));
              up_works = old.up_works;
            }))

pub Opens-nothing : (front : Front) → Opens [] front
Opens-nothing (passes message rest) = (message, refl)
Opens-nothing (blocked rest) = refl
Opens-nothing (cut part) = (part, refl)

-- A part of what the round sends is the beginning of what the front of the bytes says.
pub Opens-part :
    (front : Front) (reader r : BufReader) (upstream up : Outgoing) (x : Taken) (part more : Bytes)
    → TakesAs front reader upstream x
    → x ≡ sent_on r up
    → up.sent ≡ upstream.sent ++ (part ++ more)
    → Opens part front
Opens-part (passes message rest) reader r upstream up x part more
      (r0, up0, e, behind, same, sent, works) taken is =
    let ups : up0 ≡ up = cc (e, taken) in
    let same_sent : upstream.sent ++ (part ++ more) ≡ upstream.sent ++ message =
      sym is ∙ ap (λ (o : Outgoing). o.sent) (sym ups) ∙ sent in
    (more, (append_cancel upstream.sent upstream.sent (part ++ more) message same_sent refl).1)
Opens-part (blocked rest) reader r upstream up x part more (r0, e, behind, same) taken is =
    absurd (cc (e, taken))
Opens-part (cut last) reader r upstream up x part more (inl (e, nothing)) taken is =
    absurd (cc (e, taken))
Opens-part (cut last) reader r upstream up x part more
      (inr (r0, up0, e, none_left, same, sent, works)) taken is =
    let ups : up0 ≡ up = cc (e, taken) in
    let same_sent : upstream.sent ++ (part ++ more) ≡ upstream.sent ++ last =
      sym is ∙ ap (λ (o : Outgoing). o.sent) (sym ups) ∙ sent in
    (more, (append_cancel upstream.sent upstream.sent (part ++ more) last same_sent refl).1)

module _ (context : ConnectionContext) (init : State) (reader : BufReader) (upstream : Outgoing)
    (held : ℕ) where
  ToServer-dropped :
      ToServer context init reader upstream held
      → ServerSide context init up_dropped reader upstream held
  ToServer-dropped t = (upstream, t, [], sym (append-nil upstream.sent), Opens-nothing _)

  -- The task is dropped between two steps.
  pub ServerSide-dropped :
      (up : UpPc)
      → ServerSide context init up reader upstream held
      → ServerSide context init up_dropped reader upstream held
  ServerSide-dropped up_reading t = ToServer-dropped t
  ServerSide-dropped up_locking t = ToServer-dropped t
  ServerSide-dropped up_refusing t = ToServer-dropped t
  ServerSide-dropped up_readying t = ToServer-dropped t
  ServerSide-dropped up_done t = ToServer-dropped t
  ServerSide-dropped up_dropped t = t

  pub ServerSide-Works :
      (up : UpPc)
      → up ≡ up_reading
      → ServerSide context init up reader upstream held
      → Works upstream
  ServerSide-Works up is t =
      let here = subst (λ u. ServerSide context init u reader upstream held) is t in here.up_works
