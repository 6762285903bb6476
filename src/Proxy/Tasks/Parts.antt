-- ===== src/Proxy/Tasks/Parts.antt =====
-- The parts of the invariant of the two tasks, one by one.
use pg_prism.Prelude.{
  ◌+◌, true, false, List, [], ◌∷◌, ◌++◌, ◌≡◌, ◌≢◌, ◌⊎◌, inl, inr, refl, sym, ap, ◌∙◌, arith,
  append_assoc, append-nil,
}
use pg_prism.Text.{Bytes}
use pg_prism.Guardian.Rules.{ConnectionContext}
use pg_prism.Proxy.Stream.{Outgoing}
use pg_prism.Proxy.Forward.Copy.{Works, Sent, write_all-Sent}
use pg_prism.Proxy.Tasks.{
  UpPc, up_reading, up_locking, up_refusing, up_readying, up_done, up_dropped, DownPc, down_reading,
  down_locking, down_sending, down_closing, down_done, Lock, free, by_up, by_down, State,
  client_write,
}
use pg_prism.Proxy.Tasks.Invariant.{
  Block, answered, refusal, bytes_of, all_bytes, answers_in, refusals_in, begun, up_writes, is_ups,
  is_downs, is_torn, ToClient,
}

pub all_bytes-append : (xs ys : List Block) → all_bytes (xs ++ ys) ≡ all_bytes xs ++ all_bytes ys
all_bytes-append [] ys = refl
all_bytes-append (x ∷ xs) ys =
    ap (λ (b : Bytes). bytes_of x ++ b) (all_bytes-append xs ys)
    ∙ sym (append_assoc (bytes_of x) (all_bytes xs) (all_bytes ys))

pub answers_in-append :
    (xs ys : List Block) → answers_in (xs ++ ys) ≡ answers_in xs ++ answers_in ys
answers_in-append [] ys = refl
answers_in-append (answered buf ∷ xs) ys = ap (λ bs. buf ∷ bs) (answers_in-append xs ys)
answers_in-append (refusal ∷ xs) ys = answers_in-append xs ys

pub refusals_in-append :
    (xs ys : List Block) → refusals_in (xs ++ ys) ≡ refusals_in xs + refusals_in ys
refusals_in-append [] ys = omega arith
refusals_in-append (answered buf ∷ xs) ys = refusals_in-append xs ys
refusals_in-append (refusal ∷ xs) ys = omega (arith, refusals_in-append xs ys)

-- A write to an open socket sends all, and one to a closed socket nothing.
pub client_write-cases :
    (down : DownPc) (client : Outgoing) (bytes : Bytes)
    → Works client
    → ((down ≡ down_done) × (client_write down client bytes ≡ (false, client)))
      ⊎ ((down ≢ down_done) × Sent client bytes (client_write down client bytes))
client_write-cases down_done client bytes works = inl (refl, refl)
client_write-cases down_reading client bytes works =
    inr (λ e. cc e, write_all-Sent client bytes works)
client_write-cases (down_locking buf) client bytes works =
    inr (λ e. cc e, write_all-Sent client bytes works)
client_write-cases (down_sending buf) client bytes works =
    inr (λ e. cc e, write_all-Sent client bytes works)
client_write-cases down_closing client bytes works =
    inr (λ e. cc e, write_all-Sent client bytes works)

-- Who writes holds the lock, and only one does.
pub ups_not_downs : (lock : Lock) → true ≡ is_ups lock → is_downs lock ≡ false
ups_not_downs free e = absurd (cc e)
ups_not_downs by_up e = refl
ups_not_downs by_down e = absurd (cc e)

pub downs_not_ups : (lock : Lock) → true ≡ is_downs lock → is_ups lock ≡ false
downs_not_ups free e = absurd (cc e)
downs_not_ups by_up e = absurd (cc e)
downs_not_ups by_down e = refl

pub open_whole : (up : UpPc) (down : DownPc) → down ≢ down_done → is_torn up down ≡ false
open_whole up_reading down open_down = refl
open_whole up_locking down open_down = refl
open_whole up_refusing down open_down = refl
open_whole up_readying down_reading open_down = refl
open_whole up_readying (down_locking buf) open_down = refl
open_whole up_readying (down_sending buf) open_down = refl
open_whole up_readying down_closing open_down = refl
open_whole up_readying down_done open_down = absurd (open_down refl)
open_whole up_done down open_down = refl
open_whole up_dropped down open_down = refl

pub idle_whole : (up : UpPc) (down : DownPc) → up_writes up ≡ false → is_torn up down ≡ false
idle_whole up_reading down e = refl
idle_whole up_locking down e = refl
idle_whole up_refusing down e = refl
idle_whole up_readying down e = absurd (cc e)
idle_whole up_done down e = refl
idle_whole up_dropped down e = refl

pub idle-begun : (up : UpPc) → up_writes up ≡ false → begun up ≡ []
idle-begun up_reading e = refl
idle-begun up_locking e = refl
idle-begun up_refusing e = refl
idle-begun up_readying e = absurd (cc e)
idle-begun up_done e = refl
idle-begun up_dropped e = refl

pub shut-begun : (up : UpPc) → is_torn up down_done ≡ false → begun up ≡ []
shut-begun up_reading e = refl
shut-begun up_locking e = refl
shut-begun up_refusing e = refl
shut-begun up_readying e = absurd (cc e)
shut-begun up_done e = refl
shut-begun up_dropped e = refl

module _ {context : ConnectionContext} {init : State} {client : Outgoing}
    {blocks : List Block} where
  -- The task stands elsewhere, with no part of a refusal under way before or after.
  pub ToClient-idle :
      {up up' : UpPc}
      → begun up ≡ []
      → begun up' ≡ []
      → ToClient context init client blocks up
      → ToClient context init client blocks up'
  ToClient-idle {up} {up'} e e' t = record {
    client_sent =
        t.client_sent
        ∙ ap (λ (b : Bytes). init.client.sent ++ (all_bytes blocks ++ b)) (e ∙ sym e');
    client_works = t.client_works;
  }

  -- The part of a block that is under way is completed.
  pub ToClient-add :
      {client' : Outgoing} {up up' : UpPc} (block : Block) (more : Bytes)
      → begun up ++ more ≡ bytes_of block
      → begun up' ≡ []
      → client'.sent ≡ client.sent ++ more
      → Works client'
      → ToClient context init client blocks up
      → ToClient context init client' (blocks ++ (block ∷ [])) up'
  ToClient-add {client'} {up} {up'} block more is idle sent works t = record {
    client_sent = simp (sent, t.client_sent, idle, is, all_bytes-append, append_assoc, append-nil);
    client_works = works;
  }
