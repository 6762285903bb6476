-- ===== src/Proxy/Tasks/Halting.antt =====
-- How many steps the two tasks can take.
use pg_prism.Prelude.{ℕ, zero, suc, ◌+◌, ◌≤◌, List, ◌⊎◌, inl, inr, arith}
use pg_prism.Text.{Bytes}
use pg_prism.Guardian.Rules.{ConnectionContext}
use pg_prism.Proxy.Stream.{End}
use pg_prism.Proxy.Forward.Copy.{Works}
use pg_prism.Proxy.Tasks.{State}
use pg_prism.Proxy.Tasks.{Step, Reach, unmoved, later, HasEnded}
use pg_prism.Proxy.Tasks.{begin}
use pg_prism.Proxy.Client.{Session}
use pg_prism.Proxy.Tasks.Reachable.{Reach-InvAt}
use pg_prism.Prelude.{◌<◌}
use pg_prism.Proxy.Tasks.Moving.{UpStops, DownWaits, InvAt-Moves}
use pg_prism.Proxy.Tasks.Work.{work, Step-less}

abbrev pub steps : {context : ConnectionContext} {s t : State} → Reach context s t → ℕ
steps unmoved = 0
steps (later reach step) = suc (steps reach)

abbrev before :
    {context : ConnectionContext} {s t u : State}
    → Step context s t
    → Reach context t u
    → Reach context s u
before step unmoved = later unmoved step
before step (later reach last) = later (before step reach) last

-- A run that goes on until there is no step left.
abbrev pub Halts : ConnectionContext → State → Type 0
Halts context s = (t : State) × Reach context s t × (HasEnded t ⊎ (UpStops context t × DownWaits t))

module _ (context : ConnectionContext) (session : Session) (answers : List Bytes)
    (answers_end : End) where
  -- While the writes to both sockets succeed, no run of the two tasks is longer than the bound that
  -- the bytes of the client and the answers of the server give.
  pub steps-bounded :
      (s : State)
      → Works session.upstream
      → Works session.client_out
      → (reach : Reach context (begin session answers answers_end) s)
      → steps reach + work s ≤ work (begin session answers answers_end)
  steps-bounded s up_works down_works unmoved = omega arith
  steps-bounded s up_works down_works (later {t} reach step) = omega (
    arith,
    steps-bounded t up_works down_works reach,
    Step-less context (begin session answers answers_end) t s
        (Reach-InvAt context session answers answers_end t up_works down_works reach) step,
  )

  Halts-within :
      (fuel : ℕ) (s : State)
      → work s < fuel
      → Works session.upstream
      → Works session.client_out
      → Reach context (begin session answers answers_end) s
      → Halts context s
  Halts-within zero s less up_works down_works reach = absurd (omega (arith, less))
  Halts-within (suc fuel) s less up_works down_works reach =
      let init = begin session answers answers_end in
      let inv = Reach-InvAt context session answers answers_end s up_works down_works reach in
      elim (InvAt-Moves context init s inv) [
        | inl ended ↦ (s, unmoved, inl ended)
        | inr (inr waits) ↦ (s, unmoved, inr waits)
        | inr (inl (s', step)) ↦
            let (t, more, how) =
              Halts-within fuel s' (omega (arith, less, Step-less context init s s' inv step))
                up_works down_works (later reach step) in
            (t, before step more, how)
      ]

  -- While the writes to both sockets succeed, from every state that the two tasks can reach they can
  -- go on to the end of the forwarding, or to a state in which each has ended or waits for the
  -- network, and neither for the lock.
  pub Reach-Halts :
      (s : State)
      → Works session.upstream
      → Works session.client_out
      → Reach context (begin session answers answers_end) s
      → Halts context s
  Reach-Halts s up_works down_works reach =
      Halts-within (suc (work s)) s (omega arith) up_works down_works reach
