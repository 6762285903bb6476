-- ===== src/Proxy/Tasks/Up.antt =====
-- The steps of `client_to_server` keep the invariant of the two tasks.
use mathlib.Core.Path.{subst}
use pg_prism.Prelude.{
  ◌+◌, true, false, List, [], ◌∷◌, ◌++◌, ◌≡◌, inl, inr, refl, ◌∙◌, arith, append_assoc, append-nil,
}
use pg_prism.Text.{Bytes}
use pg_prism.Guardian.Rules.{ConnectionContext}
use pg_prism.Proxy.Stream.{BufReader, content, Outgoing}
use pg_prism.Proxy.Forward.{
  half_closed, sent_on, held_back, ends, take_one, blocked_packet, ready_for_query,
}
use pg_prism.Proxy.Forward.Reference.Round.{take_one-TakesAs}
use pg_prism.Proxy.Tasks.{
  up_reading, up_locking, up_refusing, up_readying, up_done, DownPc, Lock, free, by_up, State,
  client_write,
}
use pg_prism.Proxy.Tasks.Invariant.{refusal, is_torn, Inv}
use pg_prism.Proxy.Tasks.Moves.{ToServer-sent_on, ToServer-held_back, ToServer-ends}
use pg_prism.Proxy.Tasks.Parts.{
  answers_in-append, refusals_in-append, client_write-cases, ups_not_downs, open_whole,
  ToClient-idle, ToClient-add,
}

module _ (context : ConnectionContext) (init : State) {reader : BufReader}
    {upstream client : Outgoing} {answers : List Bytes} where
  pub forward-Inv :
      {lock : Lock} {down : DownPc} (r : BufReader) (up' : Outgoing)
      → take_one context reader upstream ≡ sent_on r up'
      → Inv context init reader upstream client answers lock up_reading down
      → Inv context init r up' client answers lock up_reading down
  forward-Inv r up' taken inv = record {
    held = inv.held;
    blocks = inv.blocks;
    to_server =
        ToServer-sent_on context init reader upstream inv.held inv.to_server _ _ r up' refl
          (take_one-TakesAs context reader upstream inv.to_server.up_works (content reader) refl)
          taken;
    to_client = inv.to_client;
    in_order = inv.in_order;
    counted = inv.counted;
    locked = inv.locked;
  }

  pub half_close-Inv :
      {lock : Lock} {down : DownPc} (r : BufReader) (up' : Outgoing)
      → take_one context reader upstream ≡ ends half_closed r up'
      → Inv context init reader upstream client answers lock up_reading down
      → Inv context init r up' client answers lock up_done down
  half_close-Inv {down} r up' taken inv = record {
    held = inv.held;
    blocks = inv.blocks;
    to_server =
        ToServer-ends context init reader upstream inv.held inv.to_server _ _ r up' refl
          (take_one-TakesAs context reader upstream inv.to_server.up_works (content reader) refl)
          taken;
    to_client = ToClient-idle refl refl inv.to_client;
    in_order = inv.in_order;
    counted = record { no_more = inv.counted.no_more; all_open = inv.counted.all_open };
    locked = record {
      up_locks = inv.locked.up_locks;
      down_locks = inv.locked.down_locks;
      whole = refl;
    };
  }

  pub hold-Inv :
      {lock : Lock} {down : DownPc} (r : BufReader)
      → take_one context reader upstream ≡ held_back r
      → Inv context init reader upstream client answers lock up_reading down
      → Inv context init r upstream client answers lock up_locking down
  hold-Inv r taken inv = record {
    held = inv.held + 1;
    blocks = inv.blocks;
    to_server =
        ToServer-held_back context init reader upstream inv.held inv.to_server _ _ r refl
          (take_one-TakesAs context reader upstream inv.to_server.up_works (content reader) refl)
          taken;
    to_client = ToClient-idle refl refl inv.to_client;
    in_order = inv.in_order;
    counted = record {
      no_more = omega (arith, inv.counted.no_more);
      all_open = λ h. omega (arith, inv.counted.all_open h);
    };
    locked = record {
      up_locks = inv.locked.up_locks;
      down_locks = inv.locked.down_locks;
      whole = refl;
    };
  }

  pub up_lock-Inv :
      {down : DownPc}
      → Inv context init reader upstream client answers free up_locking down
      → Inv context init reader upstream client answers by_up up_refusing down
  up_lock-Inv inv = record {
    held = inv.held;
    blocks = inv.blocks;
    to_server = inv.to_server;
    to_client = ToClient-idle refl refl inv.to_client;
    in_order = inv.in_order;
    counted = record { no_more = inv.counted.no_more; all_open = inv.counted.all_open };
    locked = record { up_locks = refl; down_locks = inv.locked.down_locks; whole = refl };
  }

  pub refuse_sent-Inv :
      {lock : Lock} {down : DownPc} (client' : Outgoing)
      → client_write down client blocked_packet ≡ (true, client')
      → Inv context init reader upstream client answers lock up_refusing down
      → Inv context init reader upstream client' answers lock up_readying down
  refuse_sent-Inv {lock} {down} client' wrote inv =
      elim (client_write-cases down client blocked_packet inv.to_client.client_works) [
        | inl (is_shut, failed) ↦ absurd (cc (failed, wrote))
        | inr (is_open, (out, e, sent, works)) ↦
            let same : out ≡ client' = cc (e, wrote) in
            subst (λ c. Inv context init reader upstream c answers lock up_readying down) same
              (record {
                held = inv.held;
                blocks = inv.blocks;
                to_server = inv.to_server;
                to_client = record {
                  client_sent = simp (sent, inv.to_client.client_sent, append_assoc, append-nil);
                  client_works = works;
                };
                in_order = inv.in_order;
                counted = record { no_more = inv.counted.no_more; all_open = inv.counted.all_open };
                locked = record {
                  up_locks = inv.locked.up_locks;
                  down_locks = inv.locked.down_locks;
                  whole = open_whole up_readying down is_open;
                };
              })
      ]

  pub refuse_failed-Inv :
      {lock : Lock} {down : DownPc} (client' : Outgoing)
      → client_write down client blocked_packet ≡ (false, client')
      → Inv context init reader upstream client answers lock up_refusing down
      → Inv context init reader upstream client' answers free up_reading down
  refuse_failed-Inv {lock} {down} client' wrote inv =
      elim (client_write-cases down client blocked_packet inv.to_client.client_works) [
        | inr (is_open, (out, e, sent, works)) ↦ absurd (cc (e, wrote))
        | inl (is_shut, e) ↦
            let same : client ≡ client' = cc (e, wrote) in
            subst (λ c. Inv context init reader upstream c answers free up_reading down) same
              (record {
                held = inv.held;
                blocks = inv.blocks;
                to_server = inv.to_server;
                to_client = ToClient-idle refl refl inv.to_client;
                in_order = inv.in_order;
                counted = record {
                  no_more = omega (arith, inv.counted.no_more);
                  all_open = λ h. absurd (h is_shut);
                };
                locked = record {
                  up_locks = refl;
                  down_locks = inv.locked.down_locks ∙ ups_not_downs lock inv.locked.up_locks;
                  whole = refl;
                };
              })
      ]

  pub ready_sent-Inv :
      {lock : Lock} {down : DownPc}
      → Inv context init reader upstream client answers lock up_readying down
      → Inv context init reader upstream
          (client_write down client ready_for_query).1
          answers
          free
          up_reading
          down
  ready_sent-Inv {lock} {down} inv =
      elim (client_write-cases down client ready_for_query inv.to_client.client_works) [
        | inl (is_shut, e) ↦
            absurd (cc (subst (λ d. is_torn up_readying d ≡ false) is_shut inv.locked.whole))
        | inr (is_open, (out, e, sent, works)) ↦ rw e (record {
          held = inv.held;
          blocks = inv.blocks ++ (refusal ∷ []);
          to_server = inv.to_server;
          to_client = ToClient-add refusal ready_for_query refl refl sent works inv.to_client;
          in_order = simp (answers_in-append, append-nil, inv.in_order);
          counted = record {
            no_more =
                omega (arith, inv.counted.no_more, refusals_in-append inv.blocks (refusal ∷ []));
            all_open = λ h.
                omega (arith, inv.counted.all_open h, refusals_in-append inv.blocks (refusal ∷ []));
          };
          locked = record {
            up_locks = refl;
            down_locks = inv.locked.down_locks ∙ ups_not_downs lock inv.locked.up_locks;
            whole = refl;
          };
        })
      ]
