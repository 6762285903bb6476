-- ===== src/Proxy/Forward/Messages.antt =====
-- The direction from the client to the server in core/rust/src/proxy.rs, on whole messages.
use mathlib.Core.Path.{subst}
use pg_prism.Prelude.{
  ℕ, zero, suc, ◌+◌, ◌<◌, Bool, true, false, List, [], ◌∷◌, ◌++◌, ◌≡◌, refl, sym, ap, ◌∙◌, arith,
  if◌then◌else◌, length, length-append, append_assoc, append-nil, All,
}
use pg_prism.Text.{Bytes}
use pg_prism.Wire.{u32_size}
use pg_prism.Guardian.Rules.{ConnectionContext}
use pg_prism.Proxy.Stream.{End, closed, ReadResult, got, ended, read_exact, content}
use pg_prism.Proxy.Stream.Reading.{ReadOutcome, read_exact-ReadOutcome}
use pg_prism.Proxy.Forward.{
  Relay, half_closed, stops, exhausted, blocked_packet, ready_for_query, forward_one,
  client_to_server,
}
use pg_prism.Proxy.Forward.Copy.{Works}
use pg_prism.Proxy.Forward.Relayed.{Message, encode, lets_through, forward_one-Relayed}

-- What the server is sent for the messages, and what the client is.
abbrev pub passed : ConnectionContext → List Message → Bytes
passed context [] = []
passed context (m ∷ ms) =
    if lets_through context m then encode m ++ passed context ms else passed context ms

abbrev pub refusals : ConnectionContext → List Message → Bytes
refusals context [] = []
refusals context (m ∷ ms) =
    if lets_through context m
    then refusals context ms
    else (blocked_packet ++ ready_for_query) ++ refusals context ms

join_passed :
    (b : Bool) (before one more : Bytes)
    → (before ++ (if b then one else [])) ++ more ≡ before ++ (if b then one ++ more else more)
join_passed true before one more = append_assoc before one more
join_passed false before one more = ap (λ (x : Bytes). x ++ more) (append-nil before)

join_refused :
    (b : Bool) (before one more : Bytes)
    → (before ++ (if b then [] else one)) ++ more ≡ before ++ (if b then more else one ++ more)
join_refused true before one more = ap (λ (x : Bytes). x ++ more) (append-nil before)
join_refused false before one more = append_assoc before one more

abbrev pub encode_all : List Message → Bytes
encode_all [] = []
encode_all (m ∷ ms) = encode m ++ encode_all ms

-- Its length fits the 32 bits that announce it.
abbrev pub FitsLength : Message → Type 0
FitsLength m = length m.body + 4 < u32_size

nothing_left : (n : ℕ) (x : ReadResult) → ReadOutcome [] closed (suc n) x → x ≡ ended closed
nothing_left n (got front r) (splits, len, same) =
    absurd
      (omega (arith, ap (λ (b : Bytes). length b) splits, length-append front (content r), len))
nothing_left n (ended e) (short, same) = rw same refl

forward_one-stops :
    (context : ConnectionContext) (relay : Relay)
    → content relay.reader ≡ []
    → relay.reader.ending ≡ closed
    → forward_one context relay ≡ stops half_closed (record relay { reader = exhausted closed })
unfolding forward_one
forward_one-stops context relay e is_closed =
    let outcome : ReadOutcome [] closed 1 (read_exact relay.reader 1) =
      subst (λ (x : End). ReadOutcome [] x 1 (read_exact relay.reader 1)) is_closed
        (subst (λ (b : Bytes). ReadOutcome b relay.reader.ending 1 (read_exact relay.reader 1)) e
          (read_exact-ReadOutcome relay.reader 1)) in
    rw (nothing_left 0 _ outcome) refl

-- A client that sends whole messages and then closes, over sockets whose writes succeed: the server
-- gets, behind what it was sent before, exactly the messages that Guardian lets through, each byte
-- for byte and in their order; the client gets one refusal with a ReadyForQuery for each of the
-- others; and the task ends with the half-close. Let through is every message that is no Query and
-- no Parse or has 1024 bytes or more, and of the others those that `check_query` passes. Fuel above
-- the number of messages is enough.
pub client_to_server-passed :
    (context : ConnectionContext) (ms : List Message) (relay : Relay) (fuel : ℕ)
    → All FitsLength ms
    → length ms < fuel
    → content relay.reader ≡ encode_all ms
    → relay.reader.ending ≡ closed
    → Works relay.upstream
    → Works relay.client
    → (last : Relay) × (client_to_server fuel context relay ≡ (half_closed, last))
      × (last.upstream.sent ≡ relay.upstream.sent ++ passed context ms)
      × (last.client.sent ≡ relay.client.sent ++ refusals context ms)
unfolding client_to_server
client_to_server-passed context ms relay zero fit enough e is_closed up_works client_works =
    absurd (omega (arith, enough))
client_to_server-passed context [] relay (suc fuel) fit enough e is_closed up_works client_works = (
  record relay { reader = exhausted closed },
  rw (forward_one-stops context relay e is_closed) refl,
  sym (append-nil relay.upstream.sent),
  sym (append-nil relay.client.sent),
)
client_to_server-passed context (m ∷ ms) relay (suc fuel) (fit, fits) enough e is_closed up_works
      client_works =
    let (next, turn, relayed) =
      forward_one-Relayed context m relay (encode_all ms) fit up_works client_works e in
    let (last, run, up_sent, client_sent) =
      client_to_server-passed context ms next fuel fits (omega (arith, enough)) relayed.behind
        (relayed.same ∙ is_closed) relayed.up_works relayed.client_works in
    (
      last,
      rw turn run,
      up_sent
          ∙ ap (λ (b : Bytes). b ++ passed context ms) relayed.up_sent
          ∙ join_passed (lets_through context m) relay.upstream.sent (encode m) (passed context ms),
      client_sent
          ∙ ap (λ (b : Bytes). b ++ refusals context ms) relayed.client_sent
          ∙ join_refused (lets_through context m) relay.client.sent
              (blocked_packet ++ ready_for_query) (refusals context ms),
    )
