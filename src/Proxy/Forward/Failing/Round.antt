-- ===== src/Proxy/Forward/Failing/Round.antt =====
-- One round of `client_to_server` in core/rust/src/proxy.rs over a socket that may fail.
use mathlib.Core.Path.{subst}
use pg_prism.Prelude.{ℕ, ◌-◌, Bool, true, false, inl, inr, if◌then◌else◌}
use pg_prism.Text.{Bytes}
use pg_prism.Guardian.Rules.{ConnectionContext}
use pg_prism.Guardian.Query.{check_query}
use pg_prism.Proxy.Stream.{BufReader, read_exact, Outgoing}
use pg_prism.Proxy.Handshake.{be_u32}
use pg_prism.Proxy.Client.{then_write, write_both}
use pg_prism.Proxy.Forward.{
  Ending, Taken, sent_on, held_back, ends, be_u8, is_inspected, forward_inspected, forward_blind,
  on_query, take_one,
}
use pg_prism.Proxy.Forward.Failing.{
  Same, Behind, write_both-WriteSim, then_write-WriteSim, after_copy-WriteSim, case_read-both,
  copy_blind-CopySim, CopySim, copied-Behind,
}

-- A round over both sockets: alike, or the one has failed.
pub data TakenSim : Taken → Taken → Type 0 where
  both_sent :
      {up good : Outgoing} (r : BufReader) → Same up good → TakenSim (sent_on r up) (sent_on r good)
  both_held : (r : BufReader) → TakenSim (held_back r) (held_back r)
  both_end :
      {up good : Outgoing} (e : Ending) (r : BufReader)
      → Same up good
      → TakenSim (ends e r up) (ends e r good)
  failed_on :
      {up good : Outgoing} (r r' : BufReader)
      → Behind up good
      → TakenSim (sent_on r up) (sent_on r' good)
  failed_end :
      {up good : Outgoing} (e : Ending) (r r' : BufReader)
      → Behind up good
      → TakenSim (ends e r up) (sent_on r' good)

module _ (up good : Outgoing) (same : Same up good) where
  copied-TakenSim :
      (p q : BufReader × Outgoing) → CopySim p q → TakenSim (sent_on p.0 p.1) (sent_on q.0 q.1)
  copied-TakenSim (r, u) (r', g) (inl (e, s)) =
      subst (λ x. TakenSim (sent_on r u) (sent_on x g)) e (both_sent r s)
  copied-TakenSim (r, u) (r', g) (inr behind) = failed_on r r' behind

  forward_inspected-TakenSim :
      (reader : BufReader) (msg_type len_bytes query : Bytes)
      → TakenSim
          (forward_inspected reader up msg_type len_bytes query)
          (forward_inspected reader good msg_type len_bytes query)
  unfolding forward_inspected
  forward_inspected-TakenSim reader msg_type len_bytes query =
      after_copy-WriteSim TakenSim _ _ _ _ (then_write query (write_both up msg_type len_bytes))
        (then_write query (write_both good msg_type len_bytes))
        (then_write-WriteSim query _ _ (write_both-WriteSim up good msg_type len_bytes same))
        (λ u g s. both_sent reader s) (λ u g behind. failed_end _ reader reader behind)

  forward_blind-TakenSim :
      (reader : BufReader) (msg_type len_bytes : Bytes) (n : ℕ)
      → TakenSim
          (forward_blind reader up msg_type len_bytes n)
          (forward_blind reader good msg_type len_bytes n)
  unfolding forward_blind
  forward_blind-TakenSim reader msg_type len_bytes n =
      after_copy-WriteSim TakenSim _ _ _ _ (write_both up msg_type len_bytes)
        (write_both good msg_type len_bytes) (write_both-WriteSim up good msg_type len_bytes same)
        (λ u g s. copied-TakenSim _ _ (copy_blind-CopySim n n reader u g s))
        (λ u g behind. failed_end _ reader _ (copied-Behind n n reader u g behind))

  on_query-TakenSim :
      (passed : Bool) (reader : BufReader) (msg_type len_bytes query : Bytes)
      → TakenSim
          (on_query passed reader up msg_type len_bytes query)
          (on_query passed reader good msg_type len_bytes query)
  on_query-TakenSim true reader msg_type len_bytes query =
      forward_inspected-TakenSim reader msg_type len_bytes query
  on_query-TakenSim false reader msg_type len_bytes query = both_held reader

  if-TakenSim :
      (c : Bool) (x x' y y' : Taken)
      → TakenSim x x'
      → TakenSim y y'
      → TakenSim (if c then x else y) (if c then x' else y')
  if-TakenSim true x x' y y' one two = one
  if-TakenSim false x x' y y' one two = two

  pub take_one-TakenSim :
      (context : ConnectionContext) (reader : BufReader)
      → TakenSim (take_one context reader up) (take_one context reader good)
  unfolding take_one
  take_one-TakenSim context reader =
      case_read-both TakenSim (read_exact reader 1) _ _ _ _ (λ e. both_end _ _ same)
        (λ msg_type r1.
          case_read-both TakenSim (read_exact r1 4) _ _ _ _ (λ e. both_end _ _ same)
            (λ len_bytes r2.
              if-TakenSim (is_inspected (be_u8 msg_type) (be_u32 len_bytes - 4)) _ _ _ _
                (case_read-both TakenSim (read_exact r2 (be_u32 len_bytes - 4)) _ _ _ _
                  (λ e. both_end _ _ same)
                  (λ query r3.
                    on_query-TakenSim (check_query query context) r3 msg_type len_bytes query))
                (forward_blind-TakenSim r2 msg_type len_bytes (be_u32 len_bytes - 4))))
