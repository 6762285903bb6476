-- ===== src/Proxy/Tasks/Downstream/Reached.antt =====
-- The client is sent whole blocks in every state that the two tasks can reach, whichever writes fail.
use mathlib.Core.Path.{subst}
use pg_prism.Prelude.{List, [], ◌++◌, ◌≡◌, true, false, inl, inr, refl, sym, ap, ◌∙◌, append-nil}
use pg_prism.Text.{Bytes}
use pg_prism.Guardian.Rules.{ConnectionContext}
use pg_prism.Proxy.Stream.{End}
use pg_prism.Proxy.Client.{Session}
use pg_prism.Proxy.Forward.{blocked_packet, ready_for_query}
use pg_prism.Proxy.Forward.Failing.{FailsOnce}
use pg_prism.Proxy.Tasks.{
  UpPc, up_reading, up_locking, up_refusing, up_readying, up_done, up_dropped, DownPc, down_sending,
  State, begin, client_write, Step, forward, hold, half_close, up_lock, refuse_sent, refuse_failed,
  ready_sent, answer, answers_over, down_lock, send_done, send_failed, shut, give_up, cut_short,
  Reach, unmoved, later,
}
use pg_prism.Proxy.Tasks.Invariant.{refusal, begun, pending, up_writes, down_writes, is_torn}
use pg_prism.Proxy.Tasks.Parts.{answers_in-append, downs_not_ups, shut-begun}
use pg_prism.Proxy.Tasks.Locking.{LockedAt, Reach-LockedAt}
use pg_prism.Proxy.Tasks.Downstream.{Framed, Side, Side-moved}
use pg_prism.Proxy.Tasks.Downstream.Writes.{
  Side-refuse_sent, Side-refuse_failed, Side-ready_sent, Side-send_done, Side-send_failed,
}

module _ (before : Bytes) (said : List Bytes) where
  abbrev SideAt : State → Type 0
  SideAt s = Side before said s.client s.answers s.up s.down

  abbrev With : State → UpPc → DownPc → Type 0
  With s up down = Side before said s.client s.answers up down

  -- No one else writes while the answer is sent.
  sender_idle :
      (s : State) (buf : Bytes) → LockedAt s → s.down ≡ down_sending buf → up_writes s.up ≡ false
  sender_idle s buf locked is =
      locked.up_locks ∙ downs_not_ups s.lock (sym (ap down_writes is) ∙ locked.down_locks)

  Step-SideAt :
      (context : ConnectionContext) (s s' : State)
      → LockedAt s
      → SideAt s
      → Step context s s'
      → SideAt s'
  Step-SideAt context s s' locked side (forward r up is taken) = side
  Step-SideAt context s s' locked side (hold r is taken) =
      Side-moved before said (ap begun is) refl side
  Step-SideAt context s s' locked side (half_close r up is taken) =
      Side-moved before said (ap begun is) refl side
  Step-SideAt context s s' locked side (up_lock is unlocked) =
      Side-moved before said (ap begun is) refl side
  Step-SideAt context s s' locked side (refuse_sent client is wrote) =
      Side-refuse_sent before said client wrote (subst (λ u. With s u s.down) is side)
  Step-SideAt context s s' locked side (refuse_failed client is wrote) =
      Side-refuse_failed before said client wrote (subst (λ u. With s u s.down) is side)
  Step-SideAt context s s' locked side (ready_sent is) =
      Side-ready_sent before said
        (λ is_done. cc (
          subst (λ d. is_torn up_readying d ≡ false) is_done
            (subst (λ u. is_torn u s.down ≡ false) is locked.whole)))
        (subst (λ u. With s u s.down) is side)
  Step-SideAt context s s' locked side (answer b buf more is said_next) =
      Side-moved before said refl (ap (λ d. pending d ++ s.answers) is ∙ said_next) side
  Step-SideAt context s s' locked side (answers_over is over) =
      Side-moved before said refl (ap (λ d. pending d ++ s.answers) is) side
  Step-SideAt context s s' locked side (down_lock buf is unlocked) =
      Side-moved before said refl (ap (λ d. pending d ++ s.answers) is) side
  Step-SideAt context s s' locked side (send_done buf client is wrote) =
      Side-send_done before said buf client (sender_idle s buf locked is)
        (subst (λ d. client_write d s.client buf ≡ (true, client)) is wrote)
        (subst (λ d. With s s.up d) is side)
  Step-SideAt context s s' locked side (send_failed buf client is wrote) =
      Side-send_failed before said buf client (sender_idle s buf locked is)
        (subst (λ d. client_write d s.client buf ≡ (false, client)) is wrote)
        (subst (λ d. With s s.up d) is side)
  Step-SideAt context s s' locked side (shut is unlocked) =
      Side-moved before said refl (ap (λ d. pending d ++ s.answers) is) side
  Step-SideAt context s s' locked side (give_up is running there) =
      Side-moved before said (shut-begun s.up (subst (λ d. is_torn s.up d ≡ false) is locked.whole))
        refl side
  Step-SideAt context s s' locked side (cut_short r up part more is_done is taken sent) =
      Side-moved before said (ap begun is) refl side

  -- What is under way of a refusal is its beginning.
  begun_more : (up : UpPc) → (more : Bytes) × (begun up ++ more ≡ blocked_packet ++ ready_for_query)
  begun_more up_readying = (ready_for_query, refl)
  begun_more up_reading = (_, refl)
  begun_more up_locking = (_, refl)
  begun_more up_refusing = (_, refl)
  begun_more up_done = (_, refl)
  begun_more up_dropped = (_, refl)

  Side-Framed : (s : State) → SideAt s → Framed before said s.client.sent
  Side-Framed s (inr (framed, broken)) = framed
  Side-Framed s (inl g) =
      let (more, begins) = begun_more s.up in
      record {
        blocks = g.blocks;
        block = refusal;
        part = begun s.up;
        more = more;
        rest = pending s.down ++ s.answers;
        all_sent = g.all_sent;
        begins = begins;
        in_order = simp (answers_in-append, append-nil, g.in_order);
      }

module _ (context : ConnectionContext) (session : Session) (answers : List Bytes)
    (answers_end : End) where
  Reach-SideAt :
      (s : State)
      → FailsOnce session.client_out
      → Reach context (begin session answers answers_end) s
      → SideAt session.client_out.sent answers s
  Reach-SideAt s once unmoved = inl (record {
    blocks = [];
    all_sent = sym (append-nil session.client_out.sent);
    in_order = refl;
    once = once;
  })
  Reach-SideAt s once (later {t} reach step) =
      Step-SideAt session.client_out.sent answers context t s
        (Reach-LockedAt context session answers answers_end t reach) (Reach-SideAt t once reach)
        step

  -- Whichever writes fail on either socket, if nothing is sent to the client behind a failed write to
  -- it, in every state that the two tasks can reach: what the client has been sent since the
  -- forwarding began are whole blocks, each what one read from the server gave or a whole refusal,
  -- and the beginning of one more at most; the server's blocks keep its order, with none left out.
  pub Reach-Framed :
      (s : State)
      → FailsOnce session.client_out
      → Reach context (begin session answers answers_end) s
      → Framed session.client_out.sent answers s.client.sent
  Reach-Framed s once reach =
      Side-Framed session.client_out.sent answers s (Reach-SideAt s once reach)
