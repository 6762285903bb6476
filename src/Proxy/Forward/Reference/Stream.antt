-- ===== src/Proxy/Forward/Reference/Stream.antt =====
-- `client_to_server` of core/rust/src/proxy.rs against the function on bytes.
use pg_prism.Prelude.{
  ℕ, zero, suc, ◌+◌, ◌-◌, ◌<◌, Bool, true, false, [], ◌∷◌, ◌++◌, ◌≡◌, refl, sym, ap, ◌∙◌, arith,
  leb, length, drop, length-drop, append_assoc, append-nil, Bool-cases, inl, inr,
}
use pg_prism.Text.{Bytes}
use pg_prism.Wire.{from_be_bytes}
use pg_prism.Guardian.Rules.{ConnectionContext}
use pg_prism.Guardian.Query.{check_query}
use pg_prism.Proxy.Stream.{content}
use pg_prism.Proxy.Forward.{
  after_turn, Relay, Ending, ending_of, Taken, exhausted, is_inspected, take_one, settle,
  forward_one, refuse, blocked_packet, ready_for_query, client_to_server,
}
use pg_prism.Proxy.Forward.Copy.{Works}
use pg_prism.Proxy.Forward.Relayed.{refuse-sent}
use pg_prism.Proxy.Forward.Reference.{
  Front, passes, blocked, cut, whole_front, short_front, front_of, from_front, join, relay_of,
}
use pg_prism.Proxy.Forward.Reference.Short.{read_short}
use pg_prism.Proxy.Forward.Reference.Round.{TakesAs, take_one-TakesAs}

-- What is left is shorter.
abbrev pub Shrinks : ℕ → Front → Type 0
Shrinks n (passes message rest) = length rest < n
Shrinks n (blocked rest) = length rest < n
Shrinks n (cut part) = Unit

whole_front-Shrinks :
    (context : ConnectionContext) (inspected : Bool) (header body rest : Bytes) (n : ℕ)
    → length rest < n
    → Shrinks n (whole_front context inspected header body rest)
whole_front-Shrinks context false header body rest n h = h
whole_front-Shrinks context true header body rest n h =
    elim (Bool-cases (check_query body context)) [ inl e ↦ rw e h | inr e ↦ rw e h ]

short_front-Shrinks :
    (inspected : Bool) (header body : Bytes) (n : ℕ) → Shrinks n (short_front inspected header body)
short_front-Shrinks true header body n = tt
short_front-Shrinks false header body n = tt

pub front_of-Shrinks :
    (context : ConnectionContext) (bytes : Bytes) → Shrinks (length bytes) (front_of context bytes)
front_of-Shrinks context [] = tt
front_of-Shrinks context (t ∷ []) = tt
front_of-Shrinks context (t ∷ a ∷ []) = tt
front_of-Shrinks context (t ∷ a ∷ b ∷ []) = tt
front_of-Shrinks context (t ∷ a ∷ b ∷ c ∷ []) = tt
front_of-Shrinks context (t ∷ a ∷ b ∷ c ∷ d ∷ bytes) =
    let n = from_be_bytes a b c d - 4 in
    elim (Bool-cases (leb n (length bytes))) [
      | inl enough ↦ rw enough (
          whole_front-Shrinks context (is_inspected t n) _ _ (drop n bytes) _
            (omega (arith, length-drop n bytes)))
      | inr short ↦ rw short (short_front-Shrinks (is_inspected t n) _ bytes _)
    ]

-- How the task ends, and with what it has sent.
abbrev pub Relays : Relay → Bytes × Bytes → Ending × Relay → Type 0
Relays relay (to_server, to_client) (ending, last) =
    (ending ≡ ending_of relay.reader.ending)
    × (last.upstream.sent ≡ relay.upstream.sent ++ to_server)
    × (last.client.sent ≡ relay.client.sent ++ to_client)

Relays-join :
    (relay next : Relay) (one more : Bytes × Bytes) (result : Ending × Relay)
    → next.reader.ending ≡ relay.reader.ending
    → next.upstream.sent ≡ relay.upstream.sent ++ one.0
    → next.client.sent ≡ relay.client.sent ++ one.1
    → Relays next more result
    → Relays relay (join one more) result
Relays-join relay next one more result same up client (e, up', client') = (
  e ∙ ap ending_of same,
  up' ∙ ap (λ (b : Bytes). b ++ more.0) up ∙ append_assoc relay.upstream.sent one.0 more.0,
  client' ∙ ap (λ (b : Bytes). b ++ more.1) client ∙ append_assoc relay.client.sent one.1 more.1,
)

Relays-nothing :
    (relay last : Relay)
    → last.upstream.sent ≡ relay.upstream.sent
    → last.client.sent ≡ relay.client.sent
    → Relays relay ([], []) (ending_of relay.reader.ending, last)
Relays-nothing relay last up client =
    (refl, up ∙ sym (append-nil relay.upstream.sent), client ∙ sym (append-nil relay.client.sent))

-- A stream with nothing left ends the task.
at_end :
    (context : ConnectionContext) (fuel : ℕ) (relay : Relay)
    → content relay.reader ≡ []
    → 0 < fuel
    → Relays relay ([], []) (client_to_server fuel context relay)
unfolding client_to_server forward_one take_one
at_end context zero relay e some_fuel = absurd (omega (arith, some_fuel))
at_end context (suc fuel) relay e some_fuel =
    rw (read_short relay.reader 1 (rw e (omega arith)))
      (Relays-nothing relay (record relay { reader = exhausted relay.reader.ending }) refl refl)

module _ (context : ConnectionContext) (fuel : ℕ) (relay : Relay) (up_works : Works relay.upstream)
    (client_works : Works relay.client)
    (rest_of_loop : (next : Relay)
      → length (content next.reader) < length (content relay.reader)
      → Works next.upstream
      → Works next.client
      → Relays next
          (relay_of fuel context (content next.reader))
          (client_to_server fuel context next)) where
  round-Relays :
      (front : Front) (x : Taken)
      → 0 < fuel
      → TakesAs front relay.reader relay.upstream x
      → Shrinks (length (content relay.reader)) front
      → Relays relay
          (from_front front (λ rest. relay_of fuel context rest))
          (after_turn (settle relay x) (λ next. client_to_server fuel context next))
  round-Relays (passes message rest) x some_fuel (r, up', e, behind, same, sent, works) fewer =
      let next : Relay = record relay { reader = r; upstream = up' } in
      rw (e, ← behind)
        (Relays-join relay next (message, []) (relay_of fuel context (content r))
          (client_to_server fuel context next) same sent (sym (append-nil relay.client.sent))
          (rest_of_loop next (rw behind fewer) works client_works))
  round-Relays (blocked rest) x some_fuel (r, e, behind, same) fewer =
      let (sent, works) = refuse-sent relay.client client_works in
      let next : Relay = record relay { reader = r; client = refuse relay.client } in
      rw (e, ← behind)
        (Relays-join relay next ([], blocked_packet ++ ready_for_query)
          (relay_of fuel context (content r)) (client_to_server fuel context next) same
          (sym (append-nil relay.upstream.sent)) sent
          (rest_of_loop next (rw behind fewer) up_works works))
  round-Relays (cut part) x some_fuel (inl (e, nothing)) fewer =
      rw (e, nothing)
        (Relays-nothing relay (record relay { reader = exhausted relay.reader.ending }) refl refl)
  round-Relays (cut part) x some_fuel (inr (r, up', e, none_left, same, sent, works)) fewer =
      let next : Relay = record relay { reader = r; upstream = up' } in
      let (ending, up, client) = at_end context fuel next none_left some_fuel in
      rw e (ending ∙ ap ending_of same, up ∙ append-nil up'.sent ∙ sent, client)

-- Whatever bytes the client sends, in whatever pieces, over sockets whose writes succeed: what the
-- server and the client are sent is the function `relay_of` of the bytes alone, and the task ends as
-- the stream does, with the half-close where it is closed. Fuel for two rounds more than there are
-- bytes is enough.
pub client_to_server-relay_of :
    (context : ConnectionContext) (fuel : ℕ) (relay : Relay)
    → length (content relay.reader) + 1 < fuel
    → Works relay.upstream
    → Works relay.client
    → Relays relay
        (relay_of fuel context (content relay.reader))
        (client_to_server fuel context relay)
unfolding client_to_server relay_of forward_one
client_to_server-relay_of context zero relay enough up_works client_works =
    absurd (omega (arith, enough))
client_to_server-relay_of context (suc fuel) relay enough up_works client_works =
    round-Relays context fuel relay up_works client_works
      (λ next fewer. client_to_server-relay_of context fuel next (omega (arith, enough, fewer)))
      (front_of context (content relay.reader)) (take_one context relay.reader relay.upstream)
      (omega (arith, enough))
      (take_one-TakesAs context relay.reader relay.upstream up_works (content relay.reader) refl)
      (front_of-Shrinks context (content relay.reader))
