-- ===== src/Proxy/Tasks/Upstream/Reached.antt =====
-- Every step of the two tasks keeps what the server has been sent in order, whichever writes fail.
use mathlib.Core.Path.{subst}
use pg_prism.Prelude.{
  ◌∷◌, List, [], ◌++◌, ◌≡◌, inl, inr, refl, sym, ap, ◌∙◌, append_assoc, append-nil,
}
use pg_prism.Text.{Bytes}
use pg_prism.Guardian.Rules.{ConnectionContext}
use pg_prism.Proxy.Stream.{End, BufReader, content, Outgoing}
use pg_prism.Proxy.Client.{Session}
use pg_prism.Proxy.Forward.{Taken, sent_on, take_one}
use pg_prism.Proxy.Forward.Copy.{append_cancel}
use pg_prism.Proxy.Forward.Reference.{Front, passes, blocked, cut}
use pg_prism.Proxy.Forward.Reference.Round.{TakesAs, take_one-TakesAs}
use pg_prism.Proxy.Forward.Failing.{FailsOnce}
use pg_prism.Proxy.Forward.Failing.Round.{
  TakenSim, both_sent, both_held, both_end, failed_on, failed_end, take_one-TakenSim,
}
use pg_prism.Proxy.Forward.Failing.Kept.{Kept, IsStuck, take_one-IsStuck}
use pg_prism.Proxy.Forward.Failing.Stream.{mended}
use pg_prism.Proxy.Tasks.{
  UpPc, up_reading, up_locking, up_refusing, up_readying, up_done, up_dropped, State, begin, Step,
  forward, hold, half_close, up_lock, refuse_sent, refuse_failed, ready_sent, answer, answers_over,
  down_lock, send_done, send_failed, shut, give_up, cut_short, Reach, unmoved, later,
}
use pg_prism.Proxy.Tasks.Invariant.{nothing_yet, Opens}
use pg_prism.Proxy.Tasks.Upstream.{Got, Side, Opens-sent, Got-part, Side-take, Side-dropped}

Opens-append : (front : Front) (part more : Bytes) → Opens (part ++ more) front → Opens part front
Opens-append (passes message rest) part more (last, e) =
    (more ++ last, sym (append_assoc part more last) ∙ e)
Opens-append (blocked rest) [] more e = refl
Opens-append (blocked rest) (b ∷ part) more e = absurd (cc e)
Opens-append (cut message) part more (last, e) =
    (more ++ last, sym (append_assoc part more last) ∙ e)

no_part : (part more : Bytes) → part ++ more ≡ [] → part ≡ []
no_part [] more e = refl
no_part (b ∷ part) more e = absurd (cc e)

module _ (context : ConnectionContext) (bytes before : Bytes) where
  module _ (reader : BufReader) (up : Outgoing) where
    Opens-TakenSim :
        (front : Front) (x y : Taken) (r : BufReader) (u : Outgoing) (part : Bytes)
        → TakenSim x y
        → TakesAs front reader (mended up) y
        → x ≡ sent_on r u
        → u.sent ≡ up.sent ++ part
        → Opens part front
    Opens-TakenSim front _ _ r u part (both_sent {up = u0} {good = g} r0 (same, once, works)) takes
          taken sent =
        let sockets : u0 ≡ u = cc taken in
        Opens-sent context bytes before reader up front _ r0 u0 g part takes refl
          (sym sent ∙ ap (λ (o : Outgoing). o.sent) (sym sockets)) ([], append-nil u0.sent ∙ same)
    Opens-TakenSim front _ _ r u part (both_held r0) takes taken sent = absurd (cc taken)
    Opens-TakenSim front _ _ r u part (both_end e r0 same) takes taken sent = absurd (cc taken)
    Opens-TakenSim front _ _ r u part (failed_on {up = u0} {good = g} r0 r' (broken, behind, works))
          takes taken sent =
        let sockets : u0 ≡ u = cc taken in
        Opens-sent context bytes before reader up front _ r' u0 g part takes refl
          (sym sent ∙ ap (λ (o : Outgoing). o.sent) (sym sockets)) behind
    Opens-TakenSim front _ _ r u part (failed_end e r0 r' behind) takes taken sent =
        absurd (cc taken)

    -- The task is dropped within a message.
    Side-cut :
        (r : BufReader) (u : Outgoing) (part more : Bytes)
        → take_one context reader up ≡ sent_on r u
        → u.sent ≡ up.sent ++ (part ++ more)
        → Side context bytes before up_reading reader up
        → Got context bytes before (up.sent ++ part)
    Side-cut r u part more taken sent (inl going) =
        Got-part context bytes before reader up going (up.sent ++ part) part refl (
          Opens-append _ part more (
            Opens-TakenSim _ _ _ r u (part ++ more)
              (take_one-TakenSim up (mended up) (refl, going.once, λ n. refl) context reader)
              (take_one-TakesAs context reader (mended up) (λ n. refl) (content reader) refl) taken
              sent))
    Side-cut r u part more taken sent (inr (got, broken)) =
        let (same, stuck) : IsStuck up.sent u =
          subst (Kept (IsStuck up.sent)) taken (take_one-IsStuck context reader up broken) in
        let none_sent : part ++ more ≡ [] =
          (append_cancel up.sent up.sent (part ++ more) []
            (sym sent ∙ same ∙ sym (append-nil up.sent)) refl).1 in
        rw (no_part part more none_sent, append-nil up.sent) got

  Side-Got :
      (pc : UpPc) (reader : BufReader) (up : Outgoing)
      → Side context bytes before pc reader up
      → Got context bytes before up.sent
  Side-Got up_reading reader up side = Side-dropped context bytes before reader up side
  Side-Got up_locking reader up side = Side-dropped context bytes before reader up side
  Side-Got up_refusing reader up side = Side-dropped context bytes before reader up side
  Side-Got up_readying reader up side = Side-dropped context bytes before reader up side
  Side-Got up_done reader up side = Side-dropped context bytes before reader up side
  Side-Got up_dropped reader up got = got

  abbrev SideAt : State → Type 0
  SideAt s = Side context bytes before s.up s.reader s.upstream

  Step-SideAt : (s s' : State) → SideAt s → Step context s s' → SideAt s'
  Step-SideAt s s' side (forward r up is taken) =
      subst (λ u. Side context bytes before u r up) (sym is)
        (Side-take context bytes before s.reader s.upstream _ taken
          (subst (λ u. Side context bytes before u s.reader s.upstream) is side))
  Step-SideAt s s' side (hold r is taken) =
      Side-take context bytes before s.reader s.upstream _ taken
        (subst (λ u. Side context bytes before u s.reader s.upstream) is side)
  Step-SideAt s s' side (half_close r up is taken) =
      Side-take context bytes before s.reader s.upstream _ taken
        (subst (λ u. Side context bytes before u s.reader s.upstream) is side)
  Step-SideAt s s' side (up_lock is unlocked) =
      subst (λ u. Side context bytes before u s.reader s.upstream) is side
  Step-SideAt s s' side (refuse_sent client is wrote) =
      subst (λ u. Side context bytes before u s.reader s.upstream) is side
  Step-SideAt s s' side (refuse_failed client is wrote) =
      subst (λ u. Side context bytes before u s.reader s.upstream) is side
  Step-SideAt s s' side (ready_sent is) =
      subst (λ u. Side context bytes before u s.reader s.upstream) is side
  Step-SideAt s s' side (answer b buf more is said) = side
  Step-SideAt s s' side (answers_over is over) = side
  Step-SideAt s s' side (down_lock buf is unlocked) = side
  Step-SideAt s s' side (send_done buf client is wrote) = side
  Step-SideAt s s' side (send_failed buf client is wrote) = side
  Step-SideAt s s' side (shut is unlocked) = side
  Step-SideAt s s' side (give_up is running there) = Side-Got s.up s.reader s.upstream side
  Step-SideAt s s' side (cut_short r up part more is_done is taken sent) =
      Side-cut s.reader s.upstream r up part more taken sent
        (subst (λ u. Side context bytes before u s.reader s.upstream) is side)

module _ (context : ConnectionContext) (session : Session) (answers : List Bytes)
    (answers_end : End) where
  Reach-Side :
      (s : State)
      → FailsOnce session.upstream
      → Reach context (begin session answers answers_end) s
      → Side context (content session.client_in) session.upstream.sent s.up s.reader s.upstream
  Reach-Side s once unmoved = inl (record {
    to_server = [];
    held = 0;
    all_sent = sym (append-nil session.upstream.sent);
    progress = nothing_yet;
    once = once;
  })
  Reach-Side s once (later {t} reach step) =
      Step-SideAt context (content session.client_in) session.upstream.sent t s
        (Reach-Side t once reach) step

  -- Whichever writes fail on either socket, in every state that the two tasks can reach: the server
  -- has been sent messages that pass, whole and in order, and a part of the next at most.
  pub Reach-Got :
      (s : State)
      → FailsOnce session.upstream
      → Reach context (begin session answers answers_end) s
      → Got context (content session.client_in) session.upstream.sent s.upstream.sent
  Reach-Got s once reach =
      Side-Got context (content session.client_in) session.upstream.sent s.up s.reader s.upstream
        (Reach-Side s once reach)
