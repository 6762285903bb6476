-- ===== src/Proxy/Tasks/Invariant.antt =====
-- What the client and the server have been sent in every state that the tasks can reach.
use pg_prism.Prelude.{ℕ, suc, ◌+◌, ◌≤◌, Bool, true, false, List, [], ◌∷◌, ◌++◌, ◌≡◌, ◌≢◌}
use pg_prism.Text.{Bytes}
use pg_prism.Guardian.Rules.{ConnectionContext}
use pg_prism.Proxy.Stream.{BufReader, content, Outgoing}
use pg_prism.Proxy.Forward.{blocked_packet, ready_for_query}
use pg_prism.Proxy.Forward.Copy.{Works}
use pg_prism.Proxy.Forward.Reference.{Front, passes, blocked, cut, front_of}
use pg_prism.Proxy.Tasks.{
  UpPc, up_dropped, up_locking, up_refusing, up_readying, DownPc, down_locking, down_sending,
  down_done, Lock, by_up, by_down, State,
}

-- What the client gets in one piece: what one read from the server gave, or a whole refusal.
pub data Block : Type 0 where
  answered : Bytes → Block
  refusal : Block

abbrev pub bytes_of : Block → Bytes
bytes_of (answered buf) = buf
bytes_of refusal = blocked_packet ++ ready_for_query

abbrev pub all_bytes : List Block → Bytes
all_bytes [] = []
all_bytes (b ∷ bs) = bytes_of b ++ all_bytes bs

-- The server's answers among the blocks, and the number of refusals.
abbrev pub answers_in : List Block → List Bytes
answers_in [] = []
answers_in (answered buf ∷ bs) = buf ∷ answers_in bs
answers_in (refusal ∷ bs) = answers_in bs

abbrev pub refusals_in : List Block → ℕ
refusals_in [] = 0
refusals_in (answered buf ∷ bs) = refusals_in bs
refusals_in (refusal ∷ bs) = suc (refusals_in bs)

-- What has been made of the client's bytes: those sent on, the number of messages held back, and the
-- bytes still to come.
pub data Progress (context : ConnectionContext) (bytes : Bytes) : Bytes → ℕ → Bytes → Type 0 where
  nothing_yet : Progress context bytes [] 0 bytes
  one_passed :
      {sent rest : Bytes} {held : ℕ} (message more : Bytes)
      → Progress context bytes sent held rest
      → front_of context rest ≡ passes message more
      → Progress context bytes (sent ++ message) held more
  one_held :
      {sent rest : Bytes} {held : ℕ} (more : Bytes)
      → Progress context bytes sent held rest
      → front_of context rest ≡ blocked more
      → Progress context bytes sent (held + 1) more
  one_cut :
      {sent rest : Bytes} {held : ℕ} (part : Bytes)
      → Progress context bytes sent held rest
      → front_of context rest ≡ cut part
      → Progress context bytes (sent ++ part) held []

-- The part of a refusal that is under way.
abbrev pub begun : UpPc → Bytes
begun up_readying = blocked_packet
begun _ = []

-- A message held back whose refusal has not been sent whole.
abbrev pub owed : UpPc → ℕ
owed up_locking = 1
owed up_refusing = 1
owed up_readying = 1
owed _ = 0

-- What was read from the server and not yet sent.
abbrev pub pending : DownPc → List Bytes
pending (down_locking buf) = buf ∷ []
pending (down_sending buf) = buf ∷ []
pending _ = []

-- Who writes, and who holds the lock.
abbrev pub up_writes : UpPc → Bool
up_writes up_refusing = true
up_writes up_readying = true
up_writes _ = false

abbrev pub down_writes : DownPc → Bool
down_writes (down_sending buf) = true
down_writes _ = false

abbrev pub is_ups : Lock → Bool
is_ups by_up = true
is_ups _ = false

abbrev pub is_downs : Lock → Bool
is_downs by_down = true
is_downs _ = false

-- The client's socket is not shut down in the middle of a refusal.
abbrev pub is_torn : UpPc → DownPc → Bool
is_torn up_readying down_done = true
is_torn _ _ = false

-- As many refusals as messages held back, but for the one that is under way, and but for those held
-- back behind the shutdown.
pub record Counted (held : ℕ) (blocks : List Block) (up : UpPc) (down : DownPc) : Type 0 where
  pub no_more : refusals_in blocks + owed up ≤ held
  pub all_open : down ≢ down_done → refusals_in blocks + owed up ≡ held

pub record Locked (lock : Lock) (up : UpPc) (down : DownPc) : Type 0 where
  pub up_locks : up_writes up ≡ is_ups lock
  pub down_locks : down_writes down ≡ is_downs lock
  pub whole : is_torn up down ≡ false

-- The beginning of what goes to the server for the message at the front.
abbrev pub Opens : Bytes → Front → Type 0
Opens part (passes message rest) = (more : Bytes) × (part ++ more ≡ message)
Opens part (blocked rest) = part ≡ []
Opens part (cut last) = (more : Bytes) × (part ++ more ≡ last)

module _ (context : ConnectionContext) (init : State) where
  -- What the server was sent, and what it was made of.
  pub record ToServer (reader : BufReader) (upstream : Outgoing) (held : ℕ) : Type 0 where
    pub to_server : Bytes
    pub progress : Progress context (content init.reader) to_server held (content reader)
    pub up_sent : upstream.sent ≡ init.upstream.sent ++ to_server
    pub up_works : Works upstream

  -- The same, but for a part of the next message behind it once the task has been dropped.
  abbrev pub ServerSide : UpPc → BufReader → Outgoing → ℕ → Type 0
  ServerSide up_dropped reader upstream held =
      (whole : Outgoing) × ToServer reader whole held
      × (part : Bytes) × (upstream.sent ≡ whole.sent ++ part)
      × Opens part (front_of context (content reader))
  ServerSide _ reader upstream held = ToServer reader upstream held

  -- What the client was sent: whole blocks, and the part of a refusal that is under way.
  pub record ToClient (client : Outgoing) (blocks : List Block) (up : UpPc) : Type 0 where
    pub client_sent : client.sent ≡ init.client.sent ++ (all_bytes blocks ++ begun up)
    pub client_works : Works client

  -- The answers keep their order, and none is lost.
  abbrev pub InOrder : List Block → List Bytes → DownPc → Type 0
  InOrder blocks answers down = answers_in blocks ++ (pending down ++ answers) ≡ init.answers

  -- A state by its parts.
  pub record Inv (reader : BufReader) (upstream client : Outgoing) (answers : List Bytes)
      (lock : Lock) (up : UpPc) (down : DownPc) : Type 0 where
    pub held : ℕ
    pub blocks : List Block
    pub to_server : ServerSide up reader upstream held
    pub to_client : ToClient client blocks up
    pub in_order : InOrder blocks answers down
    pub counted : Counted held blocks up down
    pub locked : Locked lock up down

  abbrev pub InvAt : State → Type 0
  InvAt s = Inv s.reader s.upstream s.client s.answers s.lock s.up s.down
