-- ===== src/Proxy/Forward/Reference.antt =====
-- What the direction from the client makes of any bytes at all, as a function of the bytes alone:
-- `client_to_server` of core/rust/src/proxy.rs without its sockets and its reads.
pub mod Short
pub mod Round
pub mod Stream
use mathlib.Core.Path.{subst}
use pg_prism.Prelude.{
  leb→le, ℕ, zero, suc, ◌+◌, ◌-◌, ◌*◌, ◌/◌, ◌≤◌, ◌<◌, min, Bool, true, false, ◌||◌, ◌&&◌, List, [],
  ◌∷◌, ◌++◌, ◌≡◌, ◌⊎◌, refl, sym, ap, ◌∙◌, arith, ◌==◌, ltb, leb, if◌then◌else◌, length,
  length-append, length-take, take, drop, take-append-drop, take_add, length-drop, append_assoc,
  append-nil, Bool-cases, inl, inr,
}
use pg_prism.Text.{Bytes}
use pg_prism.Wire.{from_be_bytes}
use pg_prism.Guardian.Rules.{ConnectionContext}
use pg_prism.Guardian.Query.{check_query}
use pg_prism.Proxy.Stream.{
  End, BufReader, ReadResult, got, ended, read_exact, content, Outgoing, write_all,
}
use pg_prism.Proxy.Stream.Reading.{ReadOutcome, read_exact-ReadOutcome}
use pg_prism.Proxy.Client.{write_both}
use pg_prism.Proxy.Forward.{
  case_read, stop_at, on_query, Relay, Ending, ending_of, Taken, sent_on, held_back, ends,
  exhausted, transfer_size, copy_blind, is_inspected, forward_inspected, forward_blind, take_one,
  settle, forward_one, refuse, blocked_packet, ready_for_query, client_to_server,
}
use pg_prism.Proxy.Forward.Copy.{
  Works, Served, read_all, Sent, write_all-Sent, write_both-Sent, Copied, copy_blind-Copied,
}
use pg_prism.Proxy.Forward.Relayed.{refuse-sent}

-- What stands at the front of the client's bytes: a message that goes on, with the bytes behind it;
-- one that is refused; or one that the stream cuts off, of which the server still gets a part.
pub data Front : Type 0 where
  passes : (message rest : Bytes) → Front
  blocked : (rest : Bytes) → Front
  cut : (part : Bytes) → Front

-- A message with its body within the bytes.
abbrev pub whole_front : ConnectionContext → Bool → Bytes → Bytes → Bytes → Front
whole_front context true header body rest =
    if check_query body context then passes (header ++ body) rest else blocked rest
whole_front context false header body rest = passes (header ++ body) rest

-- One with fewer bytes: the blind copy goes on in whole pieces of 8192 bytes.
abbrev pub short_front : Bool → Bytes → Bytes → Front
short_front true header body = cut []
short_front false header body = cut (header ++ take (length body / 8192 * 8192) body)

abbrev pub front_of : ConnectionContext → Bytes → Front
front_of context (t ∷ a ∷ b ∷ c ∷ d ∷ bytes) =
    let n = from_be_bytes a b c d - 4 in
    let inspected = (t == b'Q' || t == b'P') && ltb n 1024 in
    let header = t ∷ a ∷ b ∷ c ∷ d ∷ [] in
    if leb n (length bytes)
    then whole_front context inspected header (take n bytes) (drop n bytes)
    else short_front inspected header bytes
front_of context _ = cut []

-- What goes to the server, and what goes back to the client.
abbrev pub join : Bytes × Bytes → Bytes × Bytes → Bytes × Bytes
join (a, b) (c, d) = (a ++ c, b ++ d)

abbrev pub from_front : Front → (Bytes → Bytes × Bytes) → Bytes × Bytes
from_front (passes message rest) f = join (message, []) (f rest)
from_front (blocked rest) f = join ([], blocked_packet ++ ready_for_query) (f rest)
from_front (cut part) f = (part, [])

-- All of the client's bytes, with the messages that are left.
pub relay_of : ℕ → ConnectionContext → Bytes → Bytes × Bytes
relay_of zero context bytes = ([], [])
relay_of (suc fuel) context bytes =
    from_front (front_of context bytes) (λ rest. relay_of fuel context rest)
