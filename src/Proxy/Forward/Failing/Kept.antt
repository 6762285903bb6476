-- ===== src/Proxy/Forward/Failing/Kept.antt =====
-- What one round of `client_to_server` in core/rust/src/proxy.rs keeps of the socket to the server,
-- whatever it reads and however its writes end.
use pg_prism.Prelude.{
  zero, suc, ◌-◌, min, ℕ, Bool, true, false, ◌++◌, Option-cases, [], ◌≡◌, inl, inr, refl, sym, ap,
  ◌∙◌, append_assoc, append-nil, take, Bool-cases, ◌==◌, if◌then◌else◌,
}
use pg_prism.Text.{Bytes}
use pg_prism.Guardian.Rules.{ConnectionContext}
use pg_prism.Guardian.Query.{check_query}
use pg_prism.Proxy.Stream.{BufReader, read_exact, Outgoing, write_all}
use pg_prism.Proxy.Handshake.{be_u32}
use pg_prism.Proxy.Client.{then_write, write_both}
use pg_prism.Proxy.Client.Upstream.{IsPrefix}
use pg_prism.Proxy.Forward.{
  half_closed, Taken, sent_on, held_back, ends, after_copy, transfer_size, copy_blind, be_u8,
  is_inspected, forward_inspected, forward_blind, on_query, take_one,
}
use pg_prism.Proxy.Forward.Failing.{Broken, write_all-Broken, case_read-one}

-- A property of the socket behind the round.
abbrev pub Kept : (Outgoing → Type 0) → Taken → Type 0
Kept P (sent_on r up) = P up
Kept P (held_back r) = Unit
Kept P (ends e r up) = P up

module _ (P : Outgoing → Type 0)
    (kept : (up : Outgoing) (bytes : Bytes) → P up → P (write_all up bytes).1) where
  then_write-Kept : (bytes : Bytes) (w : Bool × Outgoing) → P w.1 → P (then_write bytes w).1
  then_write-Kept bytes (true, up) h = kept up bytes h
  then_write-Kept bytes (false, up) h = h

  write_both-Kept : (up : Outgoing) (first second : Bytes) → P up → P (write_both up first second).1
  unfolding write_both
  write_both-Kept up first second h = then_write-Kept second _ (kept up first h)

  after_copy-Kept {ℓ} :
      {B : Type ℓ} (Q : B → Type 0) (w : Bool × Outgoing) (f g : Outgoing → B)
      → P w.1
      → ((up : Outgoing) → P up → Q (f up))
      → ((up : Outgoing) → P up → Q (g up))
      → Q (after_copy w f g)
  after_copy-Kept Q (true, up) f g h one two = one up h
  after_copy-Kept Q (false, up) f g h one two = two up h

  copy_blind-Kept :
      (fuel left : ℕ) (reader : BufReader) (up : Outgoing)
      → P up
      → P (copy_blind fuel left reader up).1
  unfolding copy_blind
  copy_blind-Kept zero left reader up h = h
  copy_blind-Kept (suc fuel) left reader up h = elim (Bool-cases (left == 0)) [
    | inl e ↦ rw e h
    | inr e ↦ rw e (
        case_read-one (λ (b : BufReader × Outgoing). P b.1)
          (read_exact reader (min left transfer_size)) _ _ (λ x. h)
          (λ bytes r.
            after_copy-Kept (λ (b : BufReader × Outgoing). P b.1) (write_all up bytes) _ _
              (kept up bytes h)
              (λ up' h'. copy_blind-Kept fuel (left - min left transfer_size) r up' h')
              (λ up' h'. h')))
  ]

  module _ (up : Outgoing) (h : P up) where
    forward_inspected-Kept :
        (reader : BufReader) (msg_type len_bytes query : Bytes)
        → Kept P (forward_inspected reader up msg_type len_bytes query)
    unfolding forward_inspected
    forward_inspected-Kept reader msg_type len_bytes query =
        after_copy-Kept (Kept P) (then_write query (write_both up msg_type len_bytes))
          (λ x. sent_on reader x) (λ x. ends half_closed reader x)
          (then_write-Kept query (write_both up msg_type len_bytes)
            (write_both-Kept up msg_type len_bytes h))
          (λ up' h'. h') (λ up' h'. h')

    forward_blind-Kept :
        (reader : BufReader) (msg_type len_bytes : Bytes) (n : ℕ)
        → Kept P (forward_blind reader up msg_type len_bytes n)
    unfolding forward_blind
    forward_blind-Kept reader msg_type len_bytes n =
        after_copy-Kept (Kept P) (write_both up msg_type len_bytes)
          (λ x. sent_on (copy_blind n n reader x).0 (copy_blind n n reader x).1)
          (λ x. ends half_closed reader x) (write_both-Kept up msg_type len_bytes h)
          (λ up' h'. copy_blind-Kept n n reader up' h') (λ up' h'. h')

    on_query-Kept :
        (passed : Bool) (reader : BufReader) (msg_type len_bytes query : Bytes)
        → Kept P (on_query passed reader up msg_type len_bytes query)
    on_query-Kept true reader msg_type len_bytes query =
        forward_inspected-Kept reader msg_type len_bytes query
    on_query-Kept false reader msg_type len_bytes query = tt

    if-Kept : (c : Bool) (x y : Taken) → Kept P x → Kept P y → Kept P (if c then x else y)
    if-Kept true x y one two = one
    if-Kept false x y one two = two

    -- What every write keeps, the round keeps.
    pub take_one-Kept :
        (context : ConnectionContext) (reader : BufReader) → Kept P (take_one context reader up)
    unfolding take_one
    take_one-Kept context reader =
        case_read-one (Kept P) (read_exact reader 1) _ _ (λ e. h)
          (λ msg_type r1.
            case_read-one (Kept P) (read_exact r1 4) _ _ (λ e. h)
              (λ len_bytes r2.
                if-Kept (is_inspected (be_u8 msg_type) (be_u32 len_bytes - 4)) _ _
                  (case_read-one (Kept P) (read_exact r2 (be_u32 len_bytes - 4)) _ _ (λ e. h)
                    (λ query r3.
                      on_query-Kept (check_query query context) r3 msg_type len_bytes query))
                  (forward_blind-Kept r2 msg_type len_bytes (be_u32 len_bytes - 4))))

-- A socket that has failed, with nothing more sent on it.
abbrev pub IsStuck : Bytes → Outgoing → Type 0
IsStuck sent up = (up.sent ≡ sent) × Broken up

pub write_all-IsStuck :
    (sent : Bytes) (up : Outgoing) (bytes : Bytes)
    → IsStuck sent up
    → IsStuck sent (write_all up bytes).1
write_all-IsStuck sent up bytes (e, broken) =
    let (up', wrote, same, broken') = write_all-Broken up bytes broken in
    rw wrote (same ∙ e, broken')

pub take_one-IsStuck :
    (context : ConnectionContext) (reader : BufReader) (up : Outgoing)
    → Broken up
    → Kept (IsStuck up.sent) (take_one context reader up)
take_one-IsStuck context reader up broken =
    take_one-Kept (IsStuck up.sent) (write_all-IsStuck up.sent) up (refl, broken) context reader

-- A write takes nothing back.
abbrev pub Grown : Bytes → Outgoing → Type 0
Grown sent up = IsPrefix sent up.sent

write_all-Grown :
    (sent : Bytes) (up : Outgoing) (bytes : Bytes)
    → Grown sent up
    → Grown sent (write_all up bytes).1
unfolding write_all
write_all-Grown sent up bytes (more, e) = elim (Option-cases (up.fate up.writes)) [
  | inl whole ↦
      rw whole
        (more ++ bytes, sym (append_assoc sent more bytes) ∙ ap (λ (b : Bytes). b ++ bytes) e)
  | inr (k, failed) ↦ rw failed (
    more ++ take k bytes,
    sym (append_assoc sent more (take k bytes)) ∙ ap (λ (b : Bytes). b ++ take k bytes) e,
  )
]

pub take_one-Grown :
    (context : ConnectionContext) (reader : BufReader) (up : Outgoing)
    → Kept (Grown up.sent) (take_one context reader up)
take_one-Grown context reader up =
    take_one-Kept (Grown up.sent) (write_all-Grown up.sent) up ([], append-nil up.sent) context
      reader
