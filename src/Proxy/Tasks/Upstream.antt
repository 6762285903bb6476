-- ===== src/Proxy/Tasks/Upstream.antt =====
-- What the server has been sent in every state that the two tasks can reach, whichever writes fail.
pub mod Reached
use mathlib.Core.Path.{subst}
use pg_prism.Prelude.{
  ℕ, List, ◌+◌, [], ◌++◌, ◌≡◌, ◌⊎◌, inl, inr, refl, sym, ap, ◌∙◌, append_assoc, append-nil,
}
use pg_prism.Text.{Bytes}
use pg_prism.Guardian.Rules.{ConnectionContext}
use pg_prism.Proxy.Stream.{End, BufReader, content, Outgoing}
use pg_prism.Proxy.Client.{Session}
use pg_prism.Proxy.Client.Upstream.{IsPrefix}
use pg_prism.Proxy.Forward.{
  Ending, exhausted, half_closed, Taken, sent_on, held_back, ends, take_one,
}
use pg_prism.Proxy.Forward.Copy.{append_cancel}
use pg_prism.Proxy.Forward.Reference.{Front, passes, blocked, cut, front_of}
use pg_prism.Proxy.Forward.Reference.Round.{TakesAs, take_one-TakesAs}
use pg_prism.Proxy.Forward.Failing.{FailsOnce, Broken, Same, Behind}
use pg_prism.Proxy.Forward.Failing.Round.{
  TakenSim, both_sent, both_held, both_end, failed_on, failed_end, take_one-TakenSim,
}
use pg_prism.Proxy.Forward.Failing.Kept.{Kept, IsStuck, take_one-IsStuck, Grown, take_one-Grown}
use pg_prism.Proxy.Forward.Failing.Stream.{mended}
use pg_prism.Proxy.Tasks.{
  UpPc, up_reading, up_locking, up_refusing, up_readying, up_done, up_dropped, State, begin, Step,
  forward, hold, half_close, up_lock, refuse_sent, refuse_failed, ready_sent, answer, answers_over,
  down_lock, send_done, send_failed, shut, give_up, cut_short, Reach, unmoved, later,
}
use pg_prism.Proxy.Tasks.Invariant.{Progress, nothing_yet, one_passed, one_held, one_cut, Opens}
use pg_prism.Proxy.Tasks.Moves.{Opens-nothing}

exhausted-content : (e : End) → [] ≡ content (exhausted e)
unfolding content
exhausted-content e = refl

module _ (context : ConnectionContext) (bytes before : Bytes) where
  -- Behind what was there before, the messages that pass of the bytes, and a part of the next at most.
  pub record Got (sent : Bytes) : Type 0 where
    pub to_server : Bytes
    pub part : Bytes
    pub rest : Bytes
    pub held : ℕ
    pub all_sent : sent ≡ before ++ (to_server ++ part)
    pub progress : Progress context bytes to_server held rest
    pub opens : Opens part (front_of context rest)

  -- The task goes on over a socket that no write has failed on.
  pub record Going (reader : BufReader) (up : Outgoing) : Type 0 where
    pub to_server : Bytes
    pub held : ℕ
    pub all_sent : up.sent ≡ before ++ to_server
    pub progress : Progress context bytes to_server held (content reader)
    pub once : FailsOnce up

  abbrev pub Side : UpPc → BufReader → Outgoing → Type 0
  Side up_dropped reader up = Got up.sent
  Side _ reader up = Going reader up ⊎ (Got up.sent × Broken up)

  -- Behind a round of the task.
  abbrev pub After : Outgoing → Taken → Type 0
  After up (sent_on r u) = Side up_reading r u
  After up (held_back r) = Side up_locking r up
  After up (ends e r u) = Side up_done r u

  module _ (reader : BufReader) (up : Outgoing) where
    -- A part of what the working socket was sent for the front of the bytes.
    pub Opens-sent :
        (front : Front) (y : Taken) (r : BufReader) (u good : Outgoing) (part : Bytes)
        → TakesAs front reader (mended up) y
        → y ≡ sent_on r good
        → up.sent ++ part ≡ u.sent
        → IsPrefix u.sent good.sent
        → Opens part front
    Opens-sent (passes message rest) y r u good part (r0, g0, e, behind, same, sent, works) taken
          grown (more, all) =
        let goods : g0 ≡ good = cc (e, taken) in
        let is : up.sent ++ (part ++ more) ≡ up.sent ++ message =
          sym (append_assoc up.sent part more)
          ∙ ap (λ (b : Bytes). b ++ more) grown
          ∙ all
          ∙ ap (λ (o : Outgoing). o.sent) (sym goods)
          ∙ sent in
        (more, (append_cancel up.sent up.sent (part ++ more) message is refl).1)
    Opens-sent (blocked rest) y r u good part (r0, e, behind, same) taken grown front =
        absurd (cc (e, taken))
    Opens-sent (cut last) y r u good part (inl (e, nothing)) taken grown front =
        absurd (cc (e, taken))
    Opens-sent (cut last) y r u good part (inr (r0, g0, e, none_left, same, sent, works)) taken
          grown (more, all) =
        let goods : g0 ≡ good = cc (e, taken) in
        let is : up.sent ++ (part ++ more) ≡ up.sent ++ last =
          sym (append_assoc up.sent part more)
          ∙ ap (λ (b : Bytes). b ++ more) grown
          ∙ all
          ∙ ap (λ (o : Outgoing). o.sent) (sym goods)
          ∙ sent in
        (more, (append_cancel up.sent up.sent (part ++ more) last is refl).1)

    module _ (old : Going reader up) where
      -- A part of the next message was sent.
      pub Got-part :
          (sent part : Bytes)
          → up.sent ++ part ≡ sent
          → Opens part (front_of context (content reader))
          → Got sent
      Got-part sent part grown opens = record {
        to_server = old.to_server;
        part = part;
        rest = content reader;
        held = old.held;
        all_sent =
            sym grown
            ∙ ap (λ (b : Bytes). b ++ part) old.all_sent
            ∙ append_assoc before old.to_server part;
        progress = old.progress;
        opens = opens;
      }

      -- The socket has got more, by the front of the bytes.
      Going-on :
          (r : BufReader) (u : Outgoing) (message : Bytes)
          → Progress context bytes (old.to_server ++ message) old.held (content r)
          → u.sent ≡ up.sent ++ message
          → FailsOnce u
          → Going r u
      Going-on r u message progress sent once = record {
        to_server = old.to_server ++ message;
        held = old.held;
        all_sent =
            sent
            ∙ ap (λ (b : Bytes). b ++ message) old.all_sent
            ∙ append_assoc before old.to_server message;
        progress = progress;
        once = once;
      }

      -- The socket has failed in the middle of it.
      Got-failed :
          (front : Front) (r : BufReader) (u good : Outgoing)
          → front_of context (content reader) ≡ front
          → Behind u good
          → TakesAs front reader (mended up) (sent_on r good)
          → Grown up.sent u
          → Got u.sent × Broken u
      Got-failed front r u good is (broken, behind, works) takes (part, grown) = (
        Got-part u.sent part grown
            (rw is (Opens-sent front _ r u good part takes refl grown behind)),
        broken,
      )

      After-TakenSim :
          (front : Front) (x y : Taken)
          → front_of context (content reader) ≡ front
          → TakenSim x y
          → TakesAs front reader (mended up) y
          → Kept (Grown up.sent) x
          → After up x
      After-TakenSim (passes message rest) _ _ is
            (both_sent {up = u} {good = g} r (same, once, works0))
            (r0, g0, e, behind, ending, sent, works) grown =
          let readers : r0 ≡ r = cc e in
          let goods : g0 ≡ g = cc e in
          inl (
            Going-on r u message
              (subst (Progress context bytes _ old.held) (sym behind ∙ ap content readers)
                (one_passed message rest old.progress is))
              (same ∙ ap (λ (o : Outgoing). o.sent) (sym goods) ∙ sent) once)
      After-TakenSim (passes message rest) _ _ is (both_held r)
            (r0, g0, e, behind, ending, sent, works) grown =
          absurd (cc e)
      After-TakenSim (passes message rest) _ _ is (both_end x r same)
            (r0, g0, e, behind, ending, sent, works) grown =
          absurd (cc e)
      After-TakenSim (passes message rest) _ _ is (failed_on {up = u} {good = g} r r' late) takes
            grown =
          inr (Got-failed (passes message rest) r' u g is late takes grown)
      After-TakenSim (passes message rest) _ _ is (failed_end {up = u} {good = g} x r r' late) takes
            grown =
          inr (Got-failed (passes message rest) r' u g is late takes grown)
      After-TakenSim (blocked rest) _ _ is (both_sent r same) (r0, e, behind, ending) grown =
          absurd (cc e)
      After-TakenSim (blocked rest) _ _ is (both_held r) (r0, e, behind, ending) grown =
          let readers : r0 ≡ r = cc e in
          inl (record {
            to_server = old.to_server;
            held = old.held + 1;
            all_sent = old.all_sent;
            progress =
                subst (Progress context bytes _ _) (sym behind ∙ ap content readers)
                  (one_held rest old.progress is);
            once = old.once;
          })
      After-TakenSim (blocked rest) _ _ is (both_end x r same) (r0, e, behind, ending) grown =
          absurd (cc e)
      After-TakenSim (blocked rest) _ _ is (failed_on r r' late) (r0, e, behind, ending) grown =
          absurd (cc e)
      After-TakenSim (blocked rest) _ _ is (failed_end x r r' late) (r0, e, behind, ending) grown =
          absurd (cc e)
      After-TakenSim (cut last) _ _ is (both_sent r same) (inl (e, nothing)) grown = absurd (cc e)
      After-TakenSim (cut last) _ _ is (both_sent {up = u} {good = g} r (same, once, works0))
            (inr (r0, g0, e, none_left, ending, sent, works)) grown =
          let readers : r0 ≡ r = cc e in
          let goods : g0 ≡ g = cc e in
          inl (
            Going-on r u last
              (subst (Progress context bytes _ old.held) (sym none_left ∙ ap content readers)
                (one_cut last old.progress is))
              (same ∙ ap (λ (o : Outgoing). o.sent) (sym goods) ∙ sent) once)
      After-TakenSim (cut last) _ _ is (both_held r) (inl (e, nothing)) grown = absurd (cc e)
      After-TakenSim (cut last) _ _ is (both_held r)
            (inr (r0, g0, e, none_left, ending, sent, works)) grown =
          absurd (cc e)
      After-TakenSim (cut last) _ _ is (both_end {up = u} {good = g} x r (same, once, works))
            (inl (e, nothing)) grown =
          let readers : exhausted reader.ending ≡ r = cc e in
          let goods : mended up ≡ g = cc e in
          inl (
            Going-on r u last
              (subst (Progress context bytes _ old.held)
                (exhausted-content reader.ending ∙ ap content readers)
                (one_cut last old.progress is))
              (same
                ∙ ap (λ (o : Outgoing). o.sent) (sym goods)
                ∙ sym (append-nil up.sent)
                ∙ ap (λ (b : Bytes). up.sent ++ b) (sym nothing))
              once)
      After-TakenSim (cut last) _ _ is (both_end x r same)
            (inr (r0, g0, e, none_left, ending, sent, works)) grown =
          absurd (cc e)
      After-TakenSim (cut last) _ _ is (failed_on {up = u} {good = g} r r' late) takes grown =
          inr (Got-failed (cut last) r' u g is late takes grown)
      After-TakenSim (cut last) _ _ is (failed_end {up = u} {good = g} x r r' late) takes grown =
          inr (Got-failed (cut last) r' u g is late takes grown)

  -- A round, from a socket that may have failed.
  pub Side-take :
      (reader : BufReader) (up : Outgoing) (x : Taken)
      → take_one context reader up ≡ x
      → Side up_reading reader up
      → After up x
  Side-take reader up x taken (inl going) = subst (After up) taken (
      After-TakenSim reader up going _ _ _ refl
        (take_one-TakenSim up (mended up) (refl, going.once, λ n. refl) context reader)
        (take_one-TakesAs context reader (mended up) (λ n. refl) (content reader) refl)
        (take_one-Grown context reader up))
  Side-take reader up x taken (inr (got, broken)) =
      After-stuck x
        (subst (Kept (IsStuck up.sent)) taken (take_one-IsStuck context reader up broken))
    where
      After-stuck : (x : Taken) → Kept (IsStuck up.sent) x → After up x
      After-stuck (sent_on r u) (same, stuck) = inr (subst Got (sym same) got, stuck)
      After-stuck (held_back r) kept = inr (got, broken)
      After-stuck (ends e r u) (same, stuck) = inr (subst Got (sym same) got, stuck)

  -- The task is dropped between two steps.
  pub Side-dropped :
      (reader : BufReader) (up : Outgoing)
      → Going reader up ⊎ (Got up.sent × Broken up)
      → Got up.sent
  Side-dropped reader up (inl going) =
      Got-part reader up going up.sent [] (append-nil up.sent) (Opens-nothing _)
  Side-dropped reader up (inr (got, broken)) = got
