-- ===== src/Proxy/Tasks/Downstream/Writes.antt =====
-- Each write of the two tasks to the client, whether it fails or not.
use mathlib.Core.Path.{subst}
use pg_prism.Prelude.{
  true, false, List, [], ◌∷◌, ◌++◌, ◌≡◌, ◌≢◌, ◌⊎◌, inl, inr, refl, sym, ap, ◌∙◌, append_assoc,
  append-nil,
}
use pg_prism.Text.{Bytes}
use pg_prism.Proxy.Stream.{Outgoing}
use pg_prism.Proxy.Forward.{blocked_packet, ready_for_query}
use pg_prism.Proxy.Tasks.{
  UpPc, up_reading, up_refusing, up_readying, DownPc, down_reading, down_locking, down_sending,
  down_closing, down_done, client_write,
}
use pg_prism.Proxy.Tasks.Invariant.{answered, refusal, answers_in, pending}
use pg_prism.Proxy.Tasks.Parts.{answers_in-append}
use pg_prism.Proxy.Tasks.Invariant.{up_writes}
use pg_prism.Proxy.Tasks.Parts.{idle-begun}
use pg_prism.Proxy.Tasks.Downstream.{
  client_write-Wrote, client_write-Broken, Framed, Going, Side, Side-moved, Going-add, Framed-part,
}

down_cases : (down : DownPc) → (down ≡ down_done) ⊎ (down ≢ down_done)
down_cases down_reading = inr (λ e. cc e)
down_cases (down_locking buf) = inr (λ e. cc e)
down_cases (down_sending buf) = inr (λ e. cc e)
down_cases down_closing = inr (λ e. cc e)
down_cases down_done = inl refl

module _ (before : Bytes) (said : List Bytes) {client : Outgoing} {answers : List Bytes} where
  -- A refusal takes nothing from the answers.
  refusal_order :
      {up : UpPc} {down : DownPc} (g : Going before said client answers up down)
      → answers_in (g.blocks ++ (refusal ∷ [])) ++ (pending down ++ answers) ≡ said
  refusal_order g = simp (answers_in-append, append-nil, g.in_order)

  pub Side-refuse_sent :
      {down : DownPc} (out : Outgoing)
      → client_write down client blocked_packet ≡ (true, out)
      → Side before said client answers up_refusing down
      → Side before said out answers up_readying down
  Side-refuse_sent {down} out wrote (inr (framed, broken)) =
      let (out', e, same, broken') = client_write-Broken down client blocked_packet broken in
      absurd (cc (e, wrote))
  Side-refuse_sent {down} out wrote (inl g) =
      elim (client_write-Wrote down client blocked_packet
        (λ e. cc (subst (λ d. client_write d client blocked_packet ≡ (true, out)) e wrote))
        g.once) [
          | inr (out', part, more, e, sent, begins, broken) ↦ absurd (cc (e, wrote))
          | inl (out', e, sent, once) ↦
              let same : out' ≡ out = cc (e, wrote) in
              subst (λ c. Side before said c answers up_readying down) same
                (inl (record {
                  blocks = g.blocks;
                  all_sent = simp (sent, g.all_sent, append_assoc, append-nil);
                  in_order = g.in_order;
                  once = once;
                }))
        ]

  pub Side-refuse_failed :
      {down : DownPc} (out : Outgoing)
      → client_write down client blocked_packet ≡ (false, out)
      → Side before said client answers up_refusing down
      → Side before said out answers up_reading down
  Side-refuse_failed {down} out wrote (inr (framed, broken)) =
      let (out', e, same, broken') = client_write-Broken down client blocked_packet broken in
      let outs : out' ≡ out = cc (e, wrote) in
      subst (λ c. Side before said c answers up_reading down) outs
        (inr (subst (Framed before said) (sym same) framed, broken'))
  Side-refuse_failed {down} out wrote (inl g) = elim (down_cases down) [
    | inl is_done ↦
        let failed : (false, client) ≡ (false, out) =
          subst (λ d. client_write d client blocked_packet ≡ (false, out)) is_done wrote in
        let outs : client ≡ out = cc failed in
        subst (λ c. Side before said c answers up_reading down) outs
          (Side-moved before said refl refl (inl g))
    | inr is_open ↦ elim (client_write-Wrote down client blocked_packet is_open g.once) [
      | inl (out', e, sent, once) ↦ absurd (cc (e, wrote))
      | inr (out', part, more, e, sent, begins, broken) ↦
          let outs : out' ≡ out = cc (e, wrote) in
          subst (λ c. Side before said c answers up_reading down) outs
            (inr (
              Framed-part before said g refusal (blocked_packet ++ ready_for_query) part
                  (more ++ ready_for_query) (pending down ++ answers) out' refl sent
                  (sym (append_assoc part more ready_for_query)
                    ∙ ap (λ (b : Bytes). b ++ ready_for_query) begins)
                  (refusal_order g),
              broken,
            ))
    ]
  ]

  pub Side-ready_sent :
      {down : DownPc}
      → down ≢ down_done
      → Side before said client answers up_readying down
      → Side before said (client_write down client ready_for_query).1 answers up_reading down
  Side-ready_sent {down} is_open (inr (framed, broken)) =
      let (out, e, same, broken') = client_write-Broken down client ready_for_query broken in
      rw e (inr (subst (Framed before said) (sym same) framed, broken'))
  Side-ready_sent {down} is_open (inl g) =
      elim (client_write-Wrote down client ready_for_query is_open g.once) [
        | inl (out, e, sent, once) ↦ rw e (
            inl (
              Going-add before said g refusal ready_for_query out refl refl sent once
                (refusal_order g)))
        | inr (out, part, more, e, sent, begins, broken) ↦ rw e (
            inr (
              Framed-part before said g refusal ready_for_query part more (pending down ++ answers)
                  out refl sent begins (refusal_order g),
              broken,
            ))
      ]

  pub Side-send_done :
      {up : UpPc} (buf : Bytes) (out : Outgoing)
      → up_writes up ≡ false
      → client_write (down_sending buf) client buf ≡ (true, out)
      → Side before said client answers up (down_sending buf)
      → Side before said out answers up down_reading
  Side-send_done {up} buf out idle wrote (inr (framed, broken)) =
      let (out', e, same, broken') = client_write-Broken (down_sending buf) client buf broken in
      absurd (cc (e, wrote))
  Side-send_done {up} buf out idle wrote (inl g) =
      elim (client_write-Wrote (down_sending buf) client buf (λ e. cc e) g.once) [
        | inr (out', part, more, e, sent, begins, broken) ↦ absurd (cc (e, wrote))
        | inl (out', e, sent, once) ↦
            let outs : out' ≡ out = cc (e, wrote) in
            subst (λ c. Side before said c answers up down_reading) outs
              (inl (
                Going-add before said g (answered buf) buf out'
                  (ap (λ (b : Bytes). b ++ buf) (idle-begun up idle)) (idle-begun up idle) sent once
                  (simp (answers_in-append, append_assoc, g.in_order))))
      ]

  pub Side-send_failed :
      {up : UpPc} (buf : Bytes) (out : Outgoing)
      → up_writes up ≡ false
      → client_write (down_sending buf) client buf ≡ (false, out)
      → Side before said client answers up (down_sending buf)
      → Side before said out answers up down_closing
  Side-send_failed {up} buf out idle wrote (inr (framed, broken)) =
      let (out', e, same, broken') = client_write-Broken (down_sending buf) client buf broken in
      let outs : out' ≡ out = cc (e, wrote) in
      subst (λ c. Side before said c answers up down_closing) outs
        (inr (subst (Framed before said) (sym same) framed, broken'))
  Side-send_failed {up} buf out idle wrote (inl g) =
      elim (client_write-Wrote (down_sending buf) client buf (λ e. cc e) g.once) [
        | inl (out', e, sent, once) ↦ absurd (cc (e, wrote))
        | inr (out', part, more, e, sent, begins, broken) ↦
            let outs : out' ≡ out = cc (e, wrote) in
            subst (λ c. Side before said c answers up down_closing) outs
              (inr (
                Framed-part before said g (answered buf) buf part more answers out'
                    (ap (λ (b : Bytes). b ++ buf) (idle-begun up idle)) sent begins
                    (simp (answers_in-append, append_assoc, g.in_order)),
                broken,
              ))
      ]
