-- ===== src/Proxy/Tasks.antt =====
-- The two tasks of the forwarding at the end of `handle_client` of core/rust/src/proxy.rs, taking
-- turns: the lock on the client's socket, the `select!` over both, and the drain. A step is what a
-- task does between two points where the other may run, as far as the other can tell.
pub mod Invariant
pub mod Moves
pub mod Parts
pub mod Up
pub mod Down
pub mod Reachable
pub mod Upstream
pub mod Locking
pub mod Downstream
pub mod WholeSession
pub mod Delivery
pub mod Moving
pub mod Work
pub mod Halting
mod Tests
use pg_prism.Prelude.{◌++◌, ℕ, Bool, true, false, List, [], ◌∷◌, ◌≡◌, ◌≢◌, ◌⊎◌, is_empty}
use pg_prism.Text.{Bytes}
use pg_prism.Guardian.Rules.{ConnectionContext}
use pg_prism.Proxy.Stream.{End, closed, BufReader, Outgoing, write_all}
use pg_prism.Proxy.Client.{Session}
use pg_prism.Proxy.Forward.{
  Ending, half_closed, Taken, sent_on, held_back, ends, take_one, blocked_packet, ready_for_query,
}

-- Where `client_to_server` stands: before a message, before the lock for a refusal, in the two writes
-- of the refusal with the lock held, at its end, or dropped by the drain's deadline.
pub data UpPc : Type 0 where
  up_reading up_locking up_refusing up_readying up_done up_dropped : UpPc

-- Where `server_to_client` stands: before a read, before the lock with what was read, in the write
-- with the lock held, before the shutdown, or at its end.
pub data DownPc : Type 0 where
  down_reading : DownPc
  down_locking : Bytes → DownPc
  down_sending : Bytes → DownPc
  down_closing : DownPc
  down_done : DownPc

-- Who holds `client_write_half`.
pub data Lock : Type 0 where
  free by_up by_down : Lock

-- The sockets, what the server will still be read to say, and the two tasks.
pub record State : Type 0 where
  pub reader : BufReader
  pub upstream : Outgoing
  pub client : Outgoing
  pub answers : List Bytes
  pub answers_end : End
  pub lock : Lock
  pub up : UpPc
  pub down : DownPc

-- `handle_client` at the beginning of the forwarding, with what the server will say.
abbrev pub begin : Session → List Bytes → End → State
begin session answers answers_end = record {
  reader = session.client_in;
  upstream = session.upstream;
  client = session.client_out;
  answers = answers;
  answers_end = answers_end;
  lock = free;
  up = up_reading;
  down = down_reading;
}

-- A write to the client. Behind the shutdown of the socket it fails and sends nothing.
abbrev pub client_write : DownPc → Outgoing → Bytes → Bool × Outgoing
client_write down_done client bytes = (false, client)
client_write down_reading client bytes = write_all client bytes
client_write (down_locking buf) client bytes = write_all client bytes
client_write (down_sending buf) client bytes = write_all client bytes
client_write down_closing client bytes = write_all client bytes

-- The read of the server's end: an empty read, or none behind a closed stream.
abbrev pub AtEnd : State → Type 0
AtEnd s =
    ((more : List Bytes) × (s.answers ≡ [] ∷ more)) ⊎ ((s.answers ≡ []) × (s.answers_end ≡ closed))

pub data Step (context : ConnectionContext) (s : State) : State → Type 0 where
  -- `client_to_server`: a message goes on, is held back, or the task ends with the half-close.
  forward :
      (r : BufReader) (up : Outgoing)
      → s.up ≡ up_reading
      → take_one context s.reader s.upstream ≡ sent_on r up
      → Step context s (record s { reader = r; upstream = up })
  hold :
      (r : BufReader)
      → s.up ≡ up_reading
      → take_one context s.reader s.upstream ≡ held_back r
      → Step context s (record s { reader = r; up = up_locking })
  half_close :
      (r : BufReader) (up : Outgoing)
      → s.up ≡ up_reading
      → take_one context s.reader s.upstream ≡ ends half_closed r up
      → Step context s (record s { reader = r; upstream = up; up = up_done })
  -- The refusal, under the lock. The second write is made only behind the first, and its result
  -- does not matter.
  up_lock :
      s.up ≡ up_locking
      → s.lock ≡ free
      → Step context s (record s { lock = by_up; up = up_refusing })
  refuse_sent :
      (client : Outgoing)
      → s.up ≡ up_refusing
      → client_write s.down s.client blocked_packet ≡ (true, client)
      → Step context s (record s { client = client; up = up_readying })
  refuse_failed :
      (client : Outgoing)
      → s.up ≡ up_refusing
      → client_write s.down s.client blocked_packet ≡ (false, client)
      → Step context s (record s { client = client; up = up_reading; lock = free })
  ready_sent :
      s.up ≡ up_readying
      → Step context s (record s {
        client = (client_write s.down s.client ready_for_query).1;
        up = up_reading;
        lock = free;
      })
  -- `server_to_client`: a read, the write under the lock, and the shutdown under the lock.
  answer :
      (b : ℕ) (buf : Bytes) (more : List Bytes)
      → s.down ≡ down_reading
      → s.answers ≡ (b ∷ buf) ∷ more
      → Step context s (record s { answers = more; down = down_locking (b ∷ buf) })
  answers_over : s.down ≡ down_reading → AtEnd s → Step context s (record s { down = down_closing })
  down_lock :
      (buf : Bytes)
      → s.down ≡ down_locking buf
      → s.lock ≡ free
      → Step context s (record s { lock = by_down; down = down_sending buf })
  send_done :
      (buf : Bytes) (client : Outgoing)
      → s.down ≡ down_sending buf
      → client_write s.down s.client buf ≡ (true, client)
      → Step context s (record s { client = client; lock = free; down = down_reading })
  send_failed :
      (buf : Bytes) (client : Outgoing)
      → s.down ≡ down_sending buf
      → client_write s.down s.client buf ≡ (false, client)
      → Step context s (record s { client = client; lock = free; down = down_closing })
  shut : s.down ≡ down_closing → s.lock ≡ free → Step context s (record s { down = down_done })
  -- `timeout(drain_timeout, client_to_server)`, once the other task has ended. The deadline passes
  -- between two steps of the task, or within a message, of which the server has been sent a part.
  give_up :
      s.down ≡ down_done
      → s.up ≢ up_done
      → s.up ≢ up_dropped
      → Step context s (record s { up = up_dropped; lock = free })
  cut_short :
      (r : BufReader) (up : Outgoing) (part more : Bytes)
      → s.down ≡ down_done
      → s.up ≡ up_reading
      → take_one context s.reader s.upstream ≡ sent_on r up
      → up.sent ≡ s.upstream.sent ++ (part ++ more)
      → Step context s (record s {
        upstream = record s.upstream { sent = s.upstream.sent ++ part };
        up = up_dropped;
        lock = free;
      })

-- What the tasks can reach from a state.
pub data Reach (context : ConnectionContext) (s : State) : State → Type 0 where
  unmoved : Reach context s s
  later : {t u : State} → Reach context s t → Step context t u → Reach context s u

-- `handle_client` returns: the server's side has ended, and the client's has or was dropped.
abbrev pub HasEnded : State → Type 0
HasEnded s = (s.down ≡ down_done) × ((s.up ≡ up_done) ⊎ (s.up ≡ up_dropped))
