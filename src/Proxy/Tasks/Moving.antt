-- ===== src/Proxy/Tasks/Moving.antt =====
-- The tasks do not wait for one another.
use pg_prism.Prelude.{true, List, [], ◌∷◌, ◌≡◌, ◌⊎◌, inl, inr, refl, ap, ◌∙◌}
use pg_prism.Text.{Bytes}
use pg_prism.Guardian.Rules.{ConnectionContext}
use pg_prism.Proxy.Stream.{End, closed}
use pg_prism.Proxy.Forward.{exhausted, ends, take_one, blocked_packet}
use pg_prism.Proxy.Forward.Reference.{Front, passes, blocked, cut}
use pg_prism.Proxy.Forward.Reference.Round.{TakesAs, take_one-TakesAs}
use pg_prism.Proxy.Tasks.{
  UpPc, up_reading, up_locking, up_refusing, up_readying, up_done, up_dropped, DownPc, down_reading,
  down_locking, down_sending, down_closing, down_done, Lock, free, by_up, by_down, State,
}
use pg_prism.Proxy.Tasks.Invariant.{up_writes, down_writes, is_ups, is_downs}
use pg_prism.Proxy.Tasks.{
  Step, forward, hold, half_close, up_lock, refuse_sent, refuse_failed, ready_sent, answer,
  answers_over, down_lock, send_done, send_failed, shut, give_up, HasEnded,
}
use pg_prism.Proxy.Tasks.Invariant.{InvAt}
use pg_prism.Proxy.Tasks.Moves.{ServerSide-Works}
use pg_prism.Proxy.Tasks.Parts.{client_write-cases}
use pg_prism.Proxy.Stream.{silent}
use pg_prism.Proxy.Forward.{waiting, ending_of}

-- The task waits for the network: for bytes of the client, or for the server to say more.
abbrev pub UpWaits : ConnectionContext → State → Type 0
UpWaits context s =
    (s.up ≡ up_reading)
    × (take_one context s.reader s.upstream ≡ ends waiting (exhausted silent) s.upstream)

abbrev pub DownWaits : State → Type 0
DownWaits s = (s.down ≡ down_reading) × (s.answers ≡ []) × (s.answers_end ≡ silent)

-- Whoever writes stands at a write.
ups_write : (up : UpPc) → up_writes up ≡ true → (up ≡ up_refusing) ⊎ (up ≡ up_readying)
ups_write up_refusing e = inl refl
ups_write up_readying e = inr refl
ups_write up_reading e = absurd (cc e)
ups_write up_locking e = absurd (cc e)
ups_write up_done e = absurd (cc e)
ups_write up_dropped e = absurd (cc e)

downs_write : (down : DownPc) → down_writes down ≡ true → (buf : Bytes) × (down ≡ down_sending buf)
downs_write (down_sending buf) e = (buf, refl)
downs_write down_reading e = absurd (cc e)
downs_write (down_locking buf) e = absurd (cc e)
downs_write down_closing e = absurd (cc e)
downs_write down_done e = absurd (cc e)

abbrev pub Moves : ConnectionContext → State → Type 0
Moves context s = (s' : State) × Step context s s'

abbrev pub UpStops : ConnectionContext → State → Type 0
UpStops context s = UpWaits context s ⊎ ((s.up ≡ up_done) ⊎ (s.up ≡ up_dropped))

module _ (context : ConnectionContext) (init : State) (s : State) (inv : InvAt context init s) where
  -- The writes of both tasks come back.
  send-Moves : (buf : Bytes) → s.down ≡ down_sending buf → Moves context s
  send-Moves buf is = elim (client_write-cases s.down s.client buf inv.to_client.client_works) [
    | inl (is_shut, e) ↦ (_, send_failed buf s.client is e)
    | inr (is_open, (out, e, sent, works)) ↦ (_, send_done buf out is e)
  ]

  refuse-Moves : s.up ≡ up_refusing → Moves context s
  refuse-Moves is =
      elim (client_write-cases s.down s.client blocked_packet inv.to_client.client_works) [
        | inl (is_shut, e) ↦ (_, refuse_failed s.client is e)
        | inr (is_open, (out, e, sent, works)) ↦ (_, refuse_sent out is e)
      ]

  -- Either the lock is free, or who holds it moves.
  lock-Moves : (lock : Lock) → s.lock ≡ lock → (s.lock ≡ free) ⊎ Moves context s
  lock-Moves free e = inl e
  lock-Moves by_up e = elim (ups_write s.up (inv.locked.up_locks ∙ ap is_ups e)) [
    | inl is ↦ inr (refuse-Moves is)
    | inr is ↦ inr (_, ready_sent is)
  ]
  lock-Moves by_down e =
      let (buf, is) = downs_write s.down (inv.locked.down_locks ∙ ap is_downs e) in
      inr (send-Moves buf is)

  read-Moves :
      (bs : List Bytes) → s.answers ≡ bs → s.down ≡ down_reading → Moves context s ⊎ DownWaits s
  read-Moves ((b ∷ buf) ∷ more) e is = inl (_, answer b buf more is e)
  read-Moves ([] ∷ more) e is = inl (_, answers_over is (inl (more, e)))
  read-Moves [] e is = read_end s.answers_end refl
    where
      read_end : (x : End) → s.answers_end ≡ x → Moves context s ⊎ DownWaits s
      read_end closed x = inl (_, answers_over is (inr (e, x)))
      read_end silent x = inr (is, e, x)

  down-Moves :
      (down : DownPc)
      → s.down ≡ down
      → s.lock ≡ free
      → Moves context s ⊎ (DownWaits s ⊎ (s.down ≡ down_done))
  down-Moves down_reading is unlocked = elim (read-Moves s.answers refl is) [
    | inl moves ↦ inl moves
    | inr waits ↦ inr (inl waits)
  ]
  down-Moves (down_locking buf) is unlocked = inl (_, down_lock buf is unlocked)
  down-Moves (down_sending buf) is unlocked = inl (send-Moves buf is)
  down-Moves down_closing is unlocked = inl (_, shut is unlocked)
  down-Moves down_done is unlocked = inr (inr is)

  cut-Moves :
      (e : End)
      → s.up ≡ up_reading
      → take_one context s.reader s.upstream ≡ ends (ending_of e) (exhausted e) s.upstream
      → Moves context s ⊎ UpWaits context s
  cut-Moves closed is taken = inl (_, half_close _ _ is taken)
  cut-Moves silent is taken = inr (is, taken)

  take-Moves :
      (front : Front)
      → TakesAs front s.reader s.upstream (take_one context s.reader s.upstream)
      → s.up ≡ up_reading
      → Moves context s ⊎ UpWaits context s
  take-Moves (passes message rest) (r, up, taken, behind, same, sent, works) is =
      inl (_, forward r up is taken)
  take-Moves (blocked rest) (r, taken, behind, same) is = inl (_, hold r is taken)
  take-Moves (cut part) (inl (taken, nothing)) is = cut-Moves s.reader.ending is taken
  take-Moves (cut part) (inr (r, up, taken, behind, same, sent, works)) is =
      inl (_, forward r up is taken)

  up-Moves : (up : UpPc) → s.up ≡ up → s.lock ≡ free → Moves context s ⊎ UpStops context s
  up-Moves up_reading is unlocked =
      elim (take-Moves _
        (take_one-TakesAs context s.reader s.upstream
          (ServerSide-Works context init s.reader s.upstream inv.held s.up is inv.to_server) _ refl)
        is) [ inl moves ↦ inl moves | inr waits ↦ inr (inl waits) ]
  up-Moves up_locking is unlocked = inl (_, up_lock is unlocked)
  up-Moves up_refusing is unlocked = inl (refuse-Moves is)
  up-Moves up_readying is unlocked = inl (_, ready_sent is)
  up-Moves up_done is unlocked = inr (inr (inl is))
  up-Moves up_dropped is unlocked = inr (inr (inr is))

  drain-Moves : s.down ≡ down_done → UpStops context s → HasEnded s ⊎ Moves context s
  drain-Moves is (inl (reading, taken)) =
      inr (_, give_up is (λ e. cc (e, reading)) (λ e. cc (e, reading)))
  drain-Moves is (inr ended) = inl (is, ended)

  free-Moves : s.lock ≡ free → HasEnded s ⊎ (Moves context s ⊎ (UpStops context s × DownWaits s))
  free-Moves unlocked = elim (up-Moves s.up refl unlocked) [
    | inl moves ↦ inr (inl moves)
    | inr stops ↦ elim (down-Moves s.down refl unlocked) [
      | inl moves ↦ inr (inl moves)
      | inr (inl waits) ↦ inr (inr (stops, waits))
      | inr (inr is_done) ↦ elim (drain-Moves is_done stops) [
        | inl ended ↦ inl ended
        | inr moves ↦ inr (inl moves)
      ]
    ]
  ]

  -- In a state of the invariant the forwarding has ended, or a task can go on, or both wait.
  pub InvAt-Moves : HasEnded s ⊎ (Moves context s ⊎ (UpStops context s × DownWaits s))
  InvAt-Moves = elim (lock-Moves s.lock refl) [
    | inl unlocked ↦ free-Moves unlocked
    | inr moves ↦ inr (inl moves)
  ]
