-- ===== src/Proxy/Forward.antt =====
-- The two directions at the end of `handle_client` of core/rust/src/proxy.rs, each by itself; the two
-- together, with the lock on the client's socket and the drain, are in Proxy/Tasks.
pub mod Copy
pub mod Relayed
pub mod Reference
pub mod Failing
pub mod Messages
pub mod Answers
mod Tests
use pg_prism.Prelude.{
  is_empty, ℕ, zero, suc, ◌+◌, ◌-◌, min, Bool, true, false, ◌||◌, ◌&&◌, List, [], ◌∷◌, ◌++◌,
  if◌then◌else◌, ltb, ◌==◌,
}
use pg_prism.Text.{Bytes, codes}
use pg_prism.Guardian.Rules.{ConnectionContext}
use pg_prism.Guardian.Query.{check_query}
use pg_prism.Protocol.{make_error_response}
use pg_prism.Proxy.Stream.{
  End, closed, silent, BufReader, ReadResult, got, ended, read_exact, Outgoing, write_all,
}
use pg_prism.Proxy.Handshake.{be_u32}
use pg_prism.Proxy.Client.{then_write, write_both}

-- What the task works on: the client's stream, and the two sockets it writes to.
pub record Relay : Type 0 where
  pub reader : BufReader
  pub upstream : Outgoing
  pub client : Outgoing

-- How the task stands: it has ended and shut the server's socket down for writing, or it waits for
-- bytes that do not come.
pub data Ending : Type 0 where
  half_closed waiting : Ending

-- A round of the loop goes on or ends the task.
pub data Turn : Type 0 where
  goes_on : Relay → Turn
  stops : Ending → Relay → Turn

abbrev pub ending_of : End → Ending
ending_of End.closed = half_closed
ending_of End.silent = waiting

abbrev pub case_read {ℓ} : {B : Type ℓ} → ReadResult → (End → B) → (Bytes → BufReader → B) → B
case_read (got bytes r) none_left f = f bytes r
case_read (ended e) none_left f = none_left e

-- A stream with nothing more to read.
abbrev pub exhausted : End → BufReader
exhausted e = record { buffer = []; chunks = []; ending = e }

abbrev pub transfer_size : ℕ
transfer_size = 8192

abbrev pub inspected_size : ℕ
inspected_size = 1024

abbrev pub after_copy {ℓ} : {B : Type ℓ} → Bool × Outgoing → (Outgoing → B) → (Outgoing → B) → B
after_copy (true, up) f g = f up
after_copy (false, up) f g = g up

-- The inner loop of the blind forwarding, with the bytes that are left. A failure ends it, not the
-- loop round it. The fuel is the number of bytes: each round copies one at least.
pub copy_blind : ℕ → ℕ → BufReader → Outgoing → BufReader × Outgoing
copy_blind zero left reader up = (reader, up)
copy_blind (suc fuel) left reader up =
    let chunk_len = min left transfer_size in
    let round =
      case_read (read_exact reader chunk_len) (λ e. (exhausted e, up))
        (λ bytes r.
          after_copy (write_all up bytes) (λ up'. copy_blind fuel (left - chunk_len) r up')
            (λ up'. (r, up'))) in
    if left == 0 then (reader, up) else round

-- The byte that `read_u8` gave.
abbrev pub be_u8 : Bytes → ℕ
be_u8 [] = 0
be_u8 (b ∷ bs) = b

-- `(msg_type == b'Q' || msg_type == b'P') && payload_len < 1024`
abbrev pub is_inspected : ℕ → ℕ → Bool
is_inspected msg_type payload_len =
    (msg_type == b'Q' || msg_type == b'P') && ltb payload_len inspected_size

abbrev pub blocked_packet : Bytes
blocked_packet = make_error_response (codes "Query blocked by PG-Prism Guardian") (codes "42501")

-- `b"Z\x00\x00\x00\x05I"`
abbrev pub ready_for_query : Bytes
ready_for_query = b'Z' ∷ 0 ∷ 0 ∷ 0 ∷ 5 ∷ b'I' ∷ []

-- The refusal of a statement; failures to write it are ignored.
unfoldable pub refuse : Outgoing → Outgoing
refuse client = (write_both client blocked_packet ready_for_query).1

-- What a round makes of the next message: the server has got it, it is to be refused, or the task
-- ends.
pub data Taken : Type 0 where
  sent_on : BufReader → Outgoing → Taken
  held_back : BufReader → Taken
  ends : Ending → BufReader → Outgoing → Taken

-- Three writes that end the task if one fails.
unfoldable pub forward_inspected : BufReader → Outgoing → Bytes → Bytes → Bytes → Taken
forward_inspected reader up msg_type len_bytes query =
    after_copy (then_write query (write_both up msg_type len_bytes)) (λ up'. sent_on reader up')
      (λ up'. ends half_closed reader up')

unfoldable pub forward_blind : BufReader → Outgoing → Bytes → Bytes → ℕ → Taken
unfolding copy_blind
forward_blind reader up msg_type len_bytes payload_len =
    after_copy (write_both up msg_type len_bytes)
      (λ up'.
        let (reader', up'') = copy_blind payload_len payload_len reader up' in sent_on reader' up'')
      (λ up'. ends half_closed reader up')

-- Guardian's word on a message that was read.
abbrev pub on_query : Bool → BufReader → Outgoing → Bytes → Bytes → Bytes → Taken
on_query true reader up msg_type len_bytes query =
    forward_inspected reader up msg_type len_bytes query
on_query false reader up msg_type len_bytes query = held_back reader

abbrev pub stop_at : Outgoing → End → Taken
stop_at up e = ends (ending_of e) (exhausted e) up

-- A message type, a length, and the rest by the inspection.
unfoldable pub take_one : ConnectionContext → BufReader → Outgoing → Taken
unfolding forward_inspected forward_blind
take_one context reader up = case_read (read_exact reader 1) (stop_at up) (λ msg_type r1.
    case_read (read_exact r1 4) (stop_at up) (λ len_bytes r2.
      let payload_len = be_u32 len_bytes - 4 in
      if is_inspected (be_u8 msg_type) payload_len
      then case_read (read_exact r2 payload_len) (stop_at up)
          (λ query r3. on_query (check_query query context) r3 up msg_type len_bytes query)
      else forward_blind r2 up msg_type len_bytes payload_len))

-- What follows: the next round, the refusal before it, or the end.
abbrev pub settle : Relay → Taken → Turn
settle relay (sent_on reader up) = goes_on (record relay { reader = reader; upstream = up })
settle relay (held_back reader) =
    goes_on (record relay { reader = reader; client = refuse relay.client })
settle relay (ends ending reader up) =
    stops ending (record relay { reader = reader; upstream = up })

-- One round of the loop, where nobody else sends to the client.
unfoldable pub forward_one : ConnectionContext → Relay → Turn
unfolding take_one
forward_one context relay = settle relay (take_one context relay.reader relay.upstream)

abbrev pub after_turn : Turn → (Relay → Ending × Relay) → Ending × Relay
after_turn (goes_on next) f = f next
after_turn (stops ending last) f = (ending, last)

-- The loop, with the rounds that are left. A round takes a byte at least or ends the task, so two more
-- rounds than bytes arrive are enough. With none left the task counts as waiting.
pub client_to_server : ℕ → ConnectionContext → Relay → Ending × Relay
unfolding forward_one
client_to_server zero context relay = (waiting, relay)
client_to_server (suc fuel) context relay =
    after_turn (forward_one context relay) (λ next. client_to_server fuel context next)

-- The other direction: what each read from the server gives, how its stream ends, and the client's
-- socket. An empty read is the end of the stream, and a write that fails ends the task too; then the
-- client's socket is shut down.
pub server_to_client : List Bytes → End → Outgoing → Ending × Outgoing
server_to_client [] ending client = (ending_of ending, client)
server_to_client (buf ∷ reads) ending client =
    let write =
      after_copy (write_all client buf) (λ client'. server_to_client reads ending client')
        (λ client'. (half_closed, client')) in
    if is_empty buf then (half_closed, client) else write
