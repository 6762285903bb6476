-- ===== src/Proxy/Tasks/Downstream.antt =====
-- What the client has been sent, whichever writes fail, behind each step of the two tasks.
pub mod Writes
pub mod Reached
use mathlib.Core.Path.{subst}
use pg_prism.Prelude.{
  ℕ, ◌<◌, ◌+◌, Bool, true, false, List, [], ◌∷◌, ◌++◌, ◌≡◌, ◌≢◌, ◌⊎◌, Option-cases, take, drop,
  take-append-drop, inl, inr, refl, sym, ap, ◌∙◌, arith, append_assoc, append-nil,
}
use pg_prism.Text.{Bytes}
use pg_prism.Proxy.Stream.{Outgoing, write_all}
use pg_prism.Proxy.Forward.{blocked_packet, ready_for_query}
use pg_prism.Proxy.Forward.Failing.{FailsOnce, Broken, write_all-Broken}
use pg_prism.Proxy.Tasks.{
  UpPc, up_reading, up_locking, up_refusing, up_readying, up_done, up_dropped, DownPc, down_reading,
  down_locking, down_sending, down_closing, down_done, client_write,
}
use pg_prism.Proxy.Tasks.Invariant.{
  Block, answered, refusal, bytes_of, all_bytes, answers_in, begun, pending, is_torn,
}
use pg_prism.Proxy.Tasks.Parts.{all_bytes-append, answers_in-append}

-- A write that comes back in full, or with a part of it, behind which nothing is sent.
abbrev pub Wrote : Outgoing → Bytes → Bool × Outgoing → Type 0
Wrote client bytes w =
    ((out : Outgoing) × (w ≡ (true, out)) × (out.sent ≡ client.sent ++ bytes) × FailsOnce out)
    ⊎ ((out : Outgoing) × (part : Bytes) × (more : Bytes) × (w ≡ (false, out))
        × (out.sent ≡ client.sent ++ part)
        × (part ++ more ≡ bytes)
        × Broken out)

write_all-Wrote :
    (client : Outgoing) (bytes : Bytes)
    → FailsOnce client
    → Wrote client bytes (write_all client bytes)
unfolding write_all
write_all-Wrote client bytes once = elim (Option-cases (client.fate client.writes)) [
  | inl e ↦ rw e (inl (_, refl, refl, once))
  | inr (k, e) ↦ rw e (
      inr (
        _,
        take k bytes,
        drop k bytes,
        refl,
        refl,
        take-append-drop k bytes,
        λ m le. once client.writes k m e (omega (arith, le)),
      ))
]

pub client_write-Wrote :
    (down : DownPc) (client : Outgoing) (bytes : Bytes)
    → down ≢ down_done
    → FailsOnce client
    → Wrote client bytes (client_write down client bytes)
client_write-Wrote down_reading client bytes is_open once = write_all-Wrote client bytes once
client_write-Wrote (down_locking buf) client bytes is_open once = write_all-Wrote client bytes once
client_write-Wrote (down_sending buf) client bytes is_open once = write_all-Wrote client bytes once
client_write-Wrote down_closing client bytes is_open once = write_all-Wrote client bytes once
client_write-Wrote down_done client bytes is_open once = absurd (is_open refl)

-- A write on a socket that has failed.
pub client_write-Broken :
    (down : DownPc) (client : Outgoing) (bytes : Bytes)
    → Broken client
    → (out : Outgoing) × (client_write down client bytes ≡ (false, out))
      × (out.sent ≡ client.sent)
      × Broken out
client_write-Broken down_reading client bytes broken = write_all-Broken client bytes broken
client_write-Broken (down_locking buf) client bytes broken = write_all-Broken client bytes broken
client_write-Broken (down_sending buf) client bytes broken = write_all-Broken client bytes broken
client_write-Broken down_closing client bytes broken = write_all-Broken client bytes broken
client_write-Broken down_done client bytes broken = (client, refl, refl, broken)

module _ (before : Bytes) (said : List Bytes) where
  -- Behind what was there before, whole blocks and the beginning of one more; the blocks are answers
  -- in the order in which the server gave them, and refusals.
  pub record Framed (sent : Bytes) : Type 0 where
    pub blocks : List Block
    pub block : Block
    pub part : Bytes
    pub more : Bytes
    pub rest : List Bytes
    pub all_sent : sent ≡ before ++ (all_bytes blocks ++ part)
    pub begins : part ++ more ≡ bytes_of block
    pub in_order : answers_in (blocks ++ (block ∷ [])) ++ rest ≡ said

  -- No write has failed, and no answer is lost.
  pub record Going (client : Outgoing) (answers : List Bytes) (up : UpPc) (down : DownPc)
      : Type 0 where
    pub blocks : List Block
    pub all_sent : client.sent ≡ before ++ (all_bytes blocks ++ begun up)
    pub in_order : answers_in blocks ++ (pending down ++ answers) ≡ said
    pub once : FailsOnce client

  abbrev pub Side : Outgoing → List Bytes → UpPc → DownPc → Type 0
  Side client answers up down = Going client answers up down ⊎ (Framed client.sent × Broken client)

  module _ {client : Outgoing} {answers : List Bytes} where
    -- The tasks stand elsewhere.
    pub Side-moved :
        {answers' : List Bytes} {up up' : UpPc} {down down' : DownPc}
        → begun up ≡ begun up'
        → pending down ++ answers ≡ pending down' ++ answers'
        → Side client answers up down
        → Side client answers' up' down'
    Side-moved e e' (inl g) = inl (record {
      blocks = g.blocks;
      all_sent = g.all_sent ∙ ap (λ (b : Bytes). before ++ (all_bytes g.blocks ++ b)) e;
      in_order = ap (λ (bs : List Bytes). answers_in g.blocks ++ bs) (sym e') ∙ g.in_order;
      once = g.once;
    })
    Side-moved e e' (inr torn) = inr torn

    module _ {up : UpPc} {down : DownPc} (g : Going client answers up down) where
      -- A write completes a block.
      pub Going-add :
          {up' : UpPc} {down' : DownPc} {answers' : List Bytes} (block : Block) (bytes : Bytes)
          (out : Outgoing)
          → begun up ++ bytes ≡ bytes_of block
          → begun up' ≡ []
          → out.sent ≡ client.sent ++ bytes
          → FailsOnce out
          → answers_in (g.blocks ++ (block ∷ [])) ++ (pending down' ++ answers') ≡ said
          → Going out answers' up' down'
      Going-add block bytes out is idle sent once order = record {
        blocks = g.blocks ++ (block ∷ []);
        all_sent = simp (sent, g.all_sent, idle, is, all_bytes-append, append_assoc, append-nil);
        in_order = order;
        once = once;
      }

      -- A write tears it.
      pub Framed-part :
          (block : Block) (bytes part more : Bytes) (rest : List Bytes) (out : Outgoing)
          → begun up ++ bytes ≡ bytes_of block
          → out.sent ≡ client.sent ++ part
          → part ++ more ≡ bytes
          → answers_in (g.blocks ++ (block ∷ [])) ++ rest ≡ said
          → Framed out.sent
      Framed-part block bytes part more rest out is sent begins order = record {
        blocks = g.blocks;
        block = block;
        part = begun up ++ part;
        more = more;
        rest = rest;
        all_sent = simp (sent, g.all_sent, append_assoc);
        begins = append_assoc (begun up) part more ∙ ap (λ (b : Bytes). begun up ++ b) begins ∙ is;
        in_order = order;
      }
