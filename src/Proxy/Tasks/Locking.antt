-- ===== src/Proxy/Tasks/Locking.antt =====
-- The lock on the client's socket in every state that the two tasks can reach, whichever writes fail.
use mathlib.Core.Path.{subst}
use pg_prism.Prelude.{true, false, ◌≢◌, ◌∷◌, List, ◌≡◌, refl, sym, ap, ◌∙◌}
use pg_prism.Text.{Bytes}
use pg_prism.Guardian.Rules.{ConnectionContext}
use pg_prism.Proxy.Stream.{End}
use pg_prism.Proxy.Client.{Session}
use pg_prism.Proxy.Forward.{blocked_packet}
use pg_prism.Proxy.Tasks.{
  UpPc, up_reading, up_locking, up_readying, up_done, DownPc, down_reading, down_locking,
  down_sending, down_closing, down_done, Lock, free, State, begin, client_write, Step, forward,
  hold, half_close, up_lock, refuse_sent, refuse_failed, ready_sent, answer, answers_over,
  down_lock, send_done, send_failed, shut, give_up, cut_short, Reach, unmoved, later,
}
use pg_prism.Proxy.Tasks.Invariant.{Locked, up_writes, down_writes, is_ups, is_downs}
use pg_prism.Proxy.Tasks.Parts.{ups_not_downs, downs_not_ups, open_whole, idle_whole}

abbrev pub LockedAt : State → Type 0
LockedAt s = Locked s.lock s.up s.down

module _ {lock : Lock} {down : DownPc} where
  -- The task goes where it does not write.
  Locked-idle :
      (up up' : UpPc)
      → up_writes up ≡ false
      → up_writes up' ≡ false
      → Locked lock up down
      → Locked lock up' down
  Locked-idle up up' e e' locked = record {
    up_locks = e' ∙ sym e ∙ locked.up_locks;
    down_locks = locked.down_locks;
    whole = idle_whole up' down e';
  }

  -- The task has written, and the lock is free again.
  Locked-released :
      (up up' : UpPc)
      → up_writes up ≡ true
      → up_writes up' ≡ false
      → Locked lock up down
      → Locked free up' down
  Locked-released up up' e e' locked = record {
    up_locks = e';
    down_locks = locked.down_locks ∙ ups_not_downs lock (sym e ∙ locked.up_locks);
    whole = idle_whole up' down e';
  }

module _ {lock : Lock} {up : UpPc} where
  Locked-down :
      (down down' : DownPc)
      → down_writes down ≡ down_writes down'
      → down' ≢ down_done
      → Locked lock up down
      → Locked lock up down'
  Locked-down down down' e open_down locked = record {
    up_locks = locked.up_locks;
    down_locks = sym e ∙ locked.down_locks;
    whole = open_whole up down' open_down;
  }

  Locked-sent :
      (down down' : DownPc)
      → down_writes down ≡ true
      → down_writes down' ≡ false
      → down' ≢ down_done
      → Locked lock up down
      → Locked free up down'
  Locked-sent down down' e e' open_down locked = record {
    up_locks = locked.up_locks ∙ downs_not_ups lock (sym e ∙ locked.down_locks);
    down_locks = e';
    whole = open_whole up down' open_down;
  }

Step-LockedAt :
    (context : ConnectionContext) (s s' : State) → LockedAt s → Step context s s' → LockedAt s'
Step-LockedAt context s s' h (forward r up is taken) = h
Step-LockedAt context s s' h (hold r is taken) =
    Locked-idle s.up up_locking (ap up_writes is) refl h
Step-LockedAt context s s' h (half_close r up is taken) =
    Locked-idle s.up up_done (ap up_writes is) refl h
Step-LockedAt context s s' h (up_lock is unlocked) = record {
  up_locks = refl;
  down_locks = h.down_locks ∙ ap is_downs unlocked;
  whole = refl;
}
Step-LockedAt context s s' h (refuse_sent client is wrote) = record {
  up_locks = sym (ap up_writes is) ∙ h.up_locks;
  down_locks = h.down_locks;
  whole =
      open_whole up_readying s.down
        (λ e. cc (subst (λ d. client_write d s.client blocked_packet ≡ (true, client)) e wrote));
}
Step-LockedAt context s s' h (refuse_failed client is wrote) =
    Locked-released s.up up_reading (ap up_writes is) refl h
Step-LockedAt context s s' h (ready_sent is) =
    Locked-released s.up up_reading (ap up_writes is) refl h
Step-LockedAt context s s' h (answer b buf more is said) =
    Locked-down s.down (down_locking (b ∷ buf)) (ap down_writes is) (λ e. cc e) h
Step-LockedAt context s s' h (answers_over is over) =
    Locked-down s.down down_closing (ap down_writes is) (λ e. cc e) h
Step-LockedAt context s s' h (down_lock buf is unlocked) = record {
  up_locks = h.up_locks ∙ ap is_ups unlocked;
  down_locks = refl;
  whole = open_whole s.up (down_sending buf) (λ e. cc e);
}
Step-LockedAt context s s' h (send_done buf client is wrote) =
    Locked-sent s.down down_reading (ap down_writes is) refl (λ e. cc e) h
Step-LockedAt context s s' h (send_failed buf client is wrote) =
    Locked-sent s.down down_closing (ap down_writes is) refl (λ e. cc e) h
Step-LockedAt context s s' h (shut is unlocked) = record {
  up_locks = h.up_locks;
  down_locks = sym (ap is_downs unlocked);
  whole = idle_whole s.up down_done (h.up_locks ∙ ap is_ups unlocked);
}
Step-LockedAt context s s' h (give_up is running there) = record {
  up_locks = refl;
  down_locks = ap down_writes is;
  whole = refl;
}
Step-LockedAt context s s' h (cut_short r up part more is_done is taken sent) = record {
  up_locks = refl;
  down_locks = ap down_writes is_done;
  whole = refl;
}

-- Who writes to the client holds the lock, and the socket is not shut down within a refusal.
pub Reach-LockedAt :
    (context : ConnectionContext) (session : Session) (answers : List Bytes) (answers_end : End)
    (s : State)
    → Reach context (begin session answers answers_end) s
    → LockedAt s
Reach-LockedAt context session answers answers_end s unmoved = record {
  up_locks = refl;
  down_locks = refl;
  whole = refl;
}
Reach-LockedAt context session answers answers_end s (later {t} reach step) =
    Step-LockedAt context t s (Reach-LockedAt context session answers answers_end t reach) step
