-- ===== src/Proxy/Tasks/Reachable.antt =====
-- Every state that the two tasks can reach keeps the invariant.
use mathlib.Core.Path.{subst}
use pg_prism.Prelude.{◌++◌, true, false, List, [], ◌∷◌, ◌≡◌, refl, sym, arith, append-nil}
use pg_prism.Text.{Bytes}
use pg_prism.Guardian.Rules.{ConnectionContext}
use pg_prism.Proxy.Stream.{End}
use pg_prism.Proxy.Forward.Copy.{Works}
use pg_prism.Proxy.Tasks.{UpPc, up_dropped, DownPc, down_done, Lock, free, State, client_write}
use pg_prism.Proxy.Tasks.Invariant.{nothing_yet, Inv}
use pg_prism.Proxy.Tasks.{
  Step, forward, hold, half_close, up_lock, refuse_sent, refuse_failed, ready_sent, answer,
  answers_over, down_lock, send_done, send_failed, shut, give_up, cut_short, up_reading, Reach,
  unmoved, later,
}
use pg_prism.Proxy.Tasks.Invariant.{InvAt}
use pg_prism.Proxy.Tasks.Up.{
  forward-Inv, half_close-Inv, hold-Inv, up_lock-Inv, refuse_sent-Inv, refuse_failed-Inv,
  ready_sent-Inv,
}
use pg_prism.Proxy.Tasks.Down.{
  answer-Inv, answers_over-Inv, down_lock-Inv, send_done-Inv, send_failed-Inv, shut-Inv,
  give_up-Inv, cut_short-Inv,
}
use pg_prism.Proxy.Tasks.{begin}
use pg_prism.Proxy.Client.{Session}

module _ (context : ConnectionContext) (init : State) where
  -- The invariant, with the places of the tasks, the lock and the answers free to be replaced.
  abbrev At : State → Lock → UpPc → DownPc → List Bytes → Type 0
  At s lock up down answers = Inv context init s.reader s.upstream s.client answers lock up down

  Step-InvAt : (s s' : State) → InvAt context init s → Step context s s' → InvAt context init s'
  Step-InvAt s s' inv (forward r up is taken) =
      subst (λ u. Inv context init r up s.client s.answers s.lock u s.down) (sym is)
        (forward-Inv context init r up taken (subst (λ u. At s s.lock u s.down s.answers) is inv))
  Step-InvAt s s' inv (hold r is taken) =
      hold-Inv context init r taken (subst (λ u. At s s.lock u s.down s.answers) is inv)
  Step-InvAt s s' inv (half_close r up is taken) =
      half_close-Inv context init r up taken (subst (λ u. At s s.lock u s.down s.answers) is inv)
  Step-InvAt s s' inv (up_lock is unlocked) = up_lock-Inv context init (
      subst (λ u. At s free u s.down s.answers) is
        (subst (λ l. At s l s.up s.down s.answers) unlocked inv))
  Step-InvAt s s' inv (refuse_sent client is wrote) =
      refuse_sent-Inv context init client wrote (subst (λ u. At s s.lock u s.down s.answers) is inv)
  Step-InvAt s s' inv (refuse_failed client is wrote) =
      refuse_failed-Inv context init client wrote
        (subst (λ u. At s s.lock u s.down s.answers) is inv)
  Step-InvAt s s' inv (ready_sent is) =
      ready_sent-Inv context init (subst (λ u. At s s.lock u s.down s.answers) is inv)
  Step-InvAt s s' inv (answer b buf more is said) = answer-Inv context init (b ∷ buf) (
      subst (λ d. At s s.lock s.up d ((b ∷ buf) ∷ more)) is
        (subst (λ bs. At s s.lock s.up s.down bs) said inv))
  Step-InvAt s s' inv (answers_over is over) =
      answers_over-Inv context init (subst (λ d. At s s.lock s.up d s.answers) is inv)
  Step-InvAt s s' inv (down_lock buf is unlocked) = down_lock-Inv context init buf (
      subst (λ d. At s free s.up d s.answers) is
        (subst (λ l. At s l s.up s.down s.answers) unlocked inv))
  Step-InvAt s s' inv (send_done buf client is wrote) =
      send_done-Inv context init buf client
        (subst (λ d. client_write d s.client buf ≡ (true, client)) is wrote)
        (subst (λ d. At s s.lock s.up d s.answers) is inv)
  Step-InvAt s s' inv (send_failed buf client is wrote) =
      send_failed-Inv context init buf client
        (subst (λ d. client_write d s.client buf ≡ (false, client)) is wrote)
        (subst (λ d. At s s.lock s.up d s.answers) is inv)
  Step-InvAt s s' inv (shut is unlocked) =
      subst (λ l. Inv context init s.reader s.upstream s.client s.answers l s.up down_done)
        (sym unlocked)
        (shut-Inv context init (
          subst (λ d. At s free s.up d s.answers) is
            (subst (λ l. At s l s.up s.down s.answers) unlocked inv)))
  Step-InvAt s s' inv (cut_short r up part more is_done is taken sent) =
      subst
        (λ d.
          Inv context init s.reader (record s.upstream { sent = s.upstream.sent ++ part }) s.client
            s.answers free up_dropped d)
        (sym is_done)
        (cut_short-Inv context init r up part more taken sent (
          subst (λ d. At s s.lock up_reading d s.answers) is_done
            (subst (λ u. At s s.lock u s.down s.answers) is inv)))
  Step-InvAt s s' inv (give_up is running there) =
      subst (λ d. Inv context init s.reader s.upstream s.client s.answers free up_dropped d)
        (sym is) (give_up-Inv context init (subst (λ d. At s s.lock s.up d s.answers) is inv))

module _ (context : ConnectionContext) (session : Session) (answers : List Bytes)
    (answers_end : End) where
  -- While the writes to both sockets succeed, in every state that the two tasks can reach, in whatever
  -- order they run: the server has been sent the messages that pass, whole and in order, of the bytes
  -- taken from the client, and none that was held back, but for a part of a last one that the end of
  -- the stream or the drain's deadline cut off; the client has been sent whole blocks, each
  -- what one read from the server gave or a whole refusal, but for a refusal under way, which only a
  -- task that holds the lock has; the blocks of the server keep their order, and with those not yet
  -- sent they are all that it said; there are not more refusals than messages held back, and, unless
  -- the client's socket is shut down, one for each but the one under way; and the task that writes
  -- to the client, and only it, holds the lock.
  pub Reach-InvAt :
      (s : State)
      → Works session.upstream
      → Works session.client_out
      → Reach context (begin session answers answers_end) s
      → InvAt context (begin session answers answers_end) s
  Reach-InvAt s up_works down_works unmoved = record {
    held = 0;
    blocks = [];
    to_server = record {
      to_server = [];
      progress = nothing_yet;
      up_sent = sym (append-nil session.upstream.sent);
      up_works = up_works;
    };
    to_client = record {
      client_sent = sym (append-nil session.client_out.sent);
      client_works = down_works;
    };
    in_order = refl;
    counted = record { no_more = omega arith; all_open = λ h. refl };
    locked = record { up_locks = refl; down_locks = refl; whole = refl };
  }
  Reach-InvAt s up_works down_works (later {t} reach step) =
      Step-InvAt context (begin session answers answers_end) t s
        (Reach-InvAt t up_works down_works reach) step
