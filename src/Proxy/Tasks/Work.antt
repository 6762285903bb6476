-- ===== src/Proxy/Tasks/Work.antt =====
-- Every step of the two tasks takes work off what is left.
use pg_prism.Prelude.{ℕ, ◌+◌, false, List, ◌≡◌, ◌≢◌, inl, inr, refl, sym, ap, arith}
use pg_prism.Text.{Bytes}
use pg_prism.Guardian.Rules.{ConnectionContext}
use pg_prism.Proxy.Stream.{BufReader, content, Outgoing}
use pg_prism.Proxy.Forward.{exhausted, sent_on, held_back, ends, take_one}
use pg_prism.Proxy.Forward.Reference.{Front, passes, blocked, cut}
use pg_prism.Proxy.Forward.Reference.Round.{TakesAs, take_one-TakesAs}
use pg_prism.Proxy.Tasks.{
  UpPc, up_reading, up_locking, up_refusing, up_readying, up_done, up_dropped, DownPc, down_reading,
  down_locking, down_sending, down_closing, down_done, State,
}
use pg_prism.Proxy.Tasks.{
  Step, forward, hold, half_close, up_lock, refuse_sent, refuse_failed, ready_sent, answer,
  answers_over, down_lock, send_done, send_failed, shut, give_up, cut_short,
}
use pg_prism.Proxy.Tasks.Invariant.{InvAt}
use pg_prism.Proxy.Forward.{Ending, ending_of}
use pg_prism.Prelude.{Bool-cases, ltb, ltb→lt, ◌*◌, ◌<◌, length}
use pg_prism.Proxy.Forward.Reference.Short.{read_short}
use pg_prism.Proxy.Forward.Reference.Stream.{Shrinks, front_of-Shrinks}
use pg_prism.Proxy.Tasks.Moves.{ServerSide-Works}

abbrev up_work : UpPc → ℕ
up_work up_reading = 1
up_work up_locking = 4
up_work up_refusing = 3
up_work up_readying = 2
up_work up_done = 0
up_work up_dropped = 0

abbrev down_work : DownPc → ℕ
down_work down_reading = 2
down_work (down_locking buf) = 4
down_work (down_sending buf) = 3
down_work down_closing = 1
down_work down_done = 0

-- A bound on the steps to come, from the bytes and the answers still to be read.
abbrev pub work : State → ℕ
work s = (4 * length (content s.reader) + up_work s.up) + (3 * length s.answers + down_work s.down)

running-work : (up : UpPc) → up ≢ up_done → up ≢ up_dropped → 0 < up_work up
running-work up_reading running there = omega arith
running-work up_locking running there = omega arith
running-work up_refusing running there = omega arith
running-work up_readying running there = omega arith
running-work up_done running there = absurd (running refl)
running-work up_dropped running there = absurd (there refl)

has_some : (n : ℕ) → ltb n 1 ≡ false → 0 < n
has_some n e = ground arith

module _ (context : ConnectionContext) (reader : BufReader) (up : Outgoing) where
  -- A stream without a byte more.
  take_one-ends :
      length (content reader) < 1
      → take_one context reader up ≡ ends (ending_of reader.ending) (exhausted reader.ending) up
  unfolding take_one
  take_one-ends few = rw (read_short reader 1 few) refl

  sent_on-less :
      (front : Front) (r : BufReader) (up' : Outgoing)
      → Shrinks (length (content reader)) front
      → TakesAs front reader up (take_one context reader up)
      → take_one context reader up ≡ sent_on r up'
      → length (content r) < length (content reader)
  sent_on-less (passes message rest) r up' less (r0, up0, e, behind, same, sent, works) taken =
      let readers : r0 ≡ r = cc (e, taken) in
      omega (arith, less, ap (λ (b : Bytes). length b) behind, ap (λ r. length (content r)) readers)
  sent_on-less (blocked rest) r up' less (r0, e, behind, same) taken = absurd (cc (e, taken))
  sent_on-less (cut part) r up' less (inl (e, nothing)) taken = absurd (cc (e, taken))
  sent_on-less (cut part) r up' less (inr (r0, up0, e, none_left, same, sent, works)) taken =
      let readers : r0 ≡ r = cc (e, taken) in
      elim (Bool-cases (ltb (length (content reader)) 1)) [
        | inl few ↦ absurd (cc (take_one-ends (ltb→lt _ _ few), taken))
        | inr some_left ↦ omega (
          arith,
          has_some _ some_left,
          ap (λ (b : Bytes). length b) none_left,
          ap (λ r. length (content r)) readers,
        )
      ]

  held_back-less :
      (front : Front) (r : BufReader)
      → Shrinks (length (content reader)) front
      → TakesAs front reader up (take_one context reader up)
      → take_one context reader up ≡ held_back r
      → length (content r) < length (content reader)
  held_back-less (passes message rest) r less (r0, up0, e, behind, same, sent, works) taken =
      absurd (cc (e, taken))
  held_back-less (blocked rest) r less (r0, e, behind, same) taken =
      let readers : r0 ≡ r = cc (e, taken) in
      omega (arith, less, ap (λ (b : Bytes). length b) behind, ap (λ r. length (content r)) readers)
  held_back-less (cut part) r less (inl (e, nothing)) taken = absurd (cc (e, taken))
  held_back-less (cut part) r less (inr (r0, up0, e, none_left, same, sent, works)) taken =
      absurd (cc (e, taken))

  ends-empty :
      (front : Front) (x : Ending) (r : BufReader) (up' : Outgoing)
      → TakesAs front reader up (take_one context reader up)
      → take_one context reader up ≡ ends x r up'
      → length (content r) ≡ 0
  unfolding content
  ends-empty (passes message rest) x r up' (r0, up0, e, behind, same, sent, works) taken =
      absurd (cc (e, taken))
  ends-empty (blocked rest) x r up' (r0, e, behind, same) taken = absurd (cc (e, taken))
  ends-empty (cut part) x r up' (inl (e, nothing)) taken =
      let readers : exhausted reader.ending ≡ r = cc (e, taken) in
      sym (ap (λ r. length (content r)) readers)
  ends-empty (cut part) x r up' (inr (r0, up0, e, none_left, same, sent, works)) taken =
      absurd (cc (e, taken))

module _ (context : ConnectionContext) (init : State) where
  pub Step-less : (s s' : State) → InvAt context init s → Step context s s' → work s' < work s
  Step-less s s' inv (forward r up is taken) = omega (
    arith,
    sent_on-less context s.reader s.upstream _ r up (front_of-Shrinks context (content s.reader))
        (take_one-TakesAs context s.reader s.upstream
          (ServerSide-Works context init s.reader s.upstream inv.held s.up is inv.to_server) _ refl)
        taken,
  )
  Step-less s s' inv (hold r is taken) = omega (
    arith,
    ap up_work is,
    held_back-less context s.reader s.upstream _ r (front_of-Shrinks context (content s.reader))
        (take_one-TakesAs context s.reader s.upstream
          (ServerSide-Works context init s.reader s.upstream inv.held s.up is inv.to_server) _ refl)
        taken,
  )
  Step-less s s' inv (half_close r up is taken) = omega (
    arith,
    ap up_work is,
    ends-empty context s.reader s.upstream _ _ r up
        (take_one-TakesAs context s.reader s.upstream
          (ServerSide-Works context init s.reader s.upstream inv.held s.up is inv.to_server) _ refl)
        taken,
  )
  Step-less s s' inv (up_lock is unlocked) = omega (arith, ap up_work is)
  Step-less s s' inv (refuse_sent client is wrote) = omega (arith, ap up_work is)
  Step-less s s' inv (refuse_failed client is wrote) = omega (arith, ap up_work is)
  Step-less s s' inv (ready_sent is) = omega (arith, ap up_work is)
  Step-less s s' inv (answer b buf more is said) =
      omega (arith, ap down_work is, ap (λ (bs : List Bytes). length bs) said)
  Step-less s s' inv (answers_over is at_end) = omega (arith, ap down_work is)
  Step-less s s' inv (down_lock buf is unlocked) = omega (arith, ap down_work is)
  Step-less s s' inv (send_done buf client is wrote) = omega (arith, ap down_work is)
  Step-less s s' inv (send_failed buf client is wrote) = omega (arith, ap down_work is)
  Step-less s s' inv (shut is unlocked) = omega (arith, ap down_work is)
  Step-less s s' inv (give_up is running there) = omega (arith, running-work s.up running there)
  Step-less s s' inv (cut_short r up part more is_done is taken sent) = omega (arith, ap up_work is)
