-- ===== src/Proxy/Tasks/Delivery.antt =====
-- What the client has when the server's direction has ended.
use mathlib.Core.Path.{subst}
use pg_prism.Prelude.{Bool, true, false, List, [], ◌++◌, ◌≡◌, refl, append-nil}
use pg_prism.Text.{Bytes}
use pg_prism.Guardian.Rules.{ConnectionContext}
use pg_prism.Proxy.Stream.{End}
use pg_prism.Proxy.Forward.Copy.{Works, write_all-Sent}
use pg_prism.Proxy.Tasks.{DownPc, down_closing, down_done, State, client_write}
use pg_prism.Proxy.Tasks.Invariant.{Block, all_bytes, answers_in, begun, pending, is_torn}
use pg_prism.Proxy.Tasks.{
  Step, forward, hold, half_close, up_lock, refuse_sent, refuse_failed, ready_sent, answer,
  answers_over, down_lock, send_done, send_failed, shut, give_up, cut_short, Reach, unmoved, later,
  AtEnd,
}
use pg_prism.Proxy.Tasks.Invariant.{InvAt}
use pg_prism.Proxy.Tasks.Parts.{shut-begun}
use pg_prism.Proxy.Tasks.{begin}
use pg_prism.Proxy.Client.{Session}
use pg_prism.Proxy.Tasks.Reachable.{Reach-InvAt}

abbrev is_over : DownPc → Bool
is_over down_closing = true
is_over down_done = true
is_over _ = false

module _ (context : ConnectionContext) (init : State) where
  -- The direction from the server ends only where the server's stream does.
  Step-AtEnd :
      (s s' : State)
      → InvAt context init s
      → (is_over s.down ≡ true → AtEnd s)
      → Step context s s'
      → is_over s'.down ≡ true
      → AtEnd s'
  Step-AtEnd s s' inv over (forward r up is taken) = over
  Step-AtEnd s s' inv over (hold r is taken) = over
  Step-AtEnd s s' inv over (half_close r up is taken) = over
  Step-AtEnd s s' inv over (up_lock is unlocked) = over
  Step-AtEnd s s' inv over (refuse_sent client is wrote) = over
  Step-AtEnd s s' inv over (refuse_failed client is wrote) = over
  Step-AtEnd s s' inv over (ready_sent is) = over
  Step-AtEnd s s' inv over (answer b buf more is said) = λ e. absurd (cc e)
  Step-AtEnd s s' inv over (answers_over is at_end) = λ e. at_end
  Step-AtEnd s s' inv over (down_lock buf is unlocked) = λ e. absurd (cc e)
  Step-AtEnd s s' inv over (send_done buf client is wrote) = λ e. absurd (cc e)
  Step-AtEnd s s' inv over (send_failed buf client is wrote) =
      let (out, e, sent, works) = write_all-Sent s.client buf inv.to_client.client_works in
      absurd (cc (e, subst (λ d. client_write d s.client buf ≡ (false, client)) is wrote))
  Step-AtEnd s s' inv over (shut is unlocked) = λ e. over (rw is refl)
  Step-AtEnd s s' inv over (give_up is running there) = over
  Step-AtEnd s s' inv over (cut_short r up part more is_done is taken sent) = over

module _ (session : Session) (answers : List Bytes) (answers_end : End)
    (context : ConnectionContext) where
  Reach-AtEnd :
      (s : State)
      → Works session.upstream
      → Works session.client_out
      → Reach context (begin session answers answers_end) s
      → is_over s.down ≡ true
      → AtEnd s
  Reach-AtEnd s up_works down_works unmoved = λ e. absurd (cc e)
  Reach-AtEnd s up_works down_works (later {t} reach step) =
      Step-AtEnd context (begin session answers answers_end) t s
        (Reach-InvAt context session answers answers_end t up_works down_works reach)
        (Reach-AtEnd t up_works down_works reach) step

  -- While the writes to both sockets succeed: when the client's socket has been shut down, the client
  -- has been sent whole blocks, each what one read from the server gave or a whole refusal; and the
  -- server's blocks are all that it said up to the end of its stream, in order.
  pub Reach-delivered :
      (s : State)
      → Works session.upstream
      → Works session.client_out
      → Reach context (begin session answers answers_end) s
      → s.down ≡ down_done
      → (blocks : List Block) × (s.client.sent ≡ session.client_out.sent ++ all_bytes blocks)
        × (answers_in blocks ++ s.answers ≡ answers)
        × AtEnd s
  Reach-delivered s up_works down_works reach is_done =
      let inv = Reach-InvAt context session answers answers_end s up_works down_works reach in
      let whole : begun s.up ≡ [] =
        shut-begun s.up (subst (λ d. is_torn s.up d ≡ false) is_done inv.locked.whole) in
      (
        inv.blocks,
        simp (inv.to_client.client_sent, whole, append-nil),
        subst (λ d. answers_in inv.blocks ++ (pending d ++ s.answers) ≡ answers) is_done
            inv.in_order,
        Reach-AtEnd s up_works down_works reach (rw is_done refl),
      )
