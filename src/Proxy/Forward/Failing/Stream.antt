-- ===== src/Proxy/Forward/Failing/Stream.antt =====
-- What a server that fails has been sent by `client_to_server` of core/rust/src/proxy.rs.
use mathlib.Core.Path.{subst}
use pg_prism.Prelude.{
  none, ℕ, zero, suc, ◌+◌, ◌<◌, [], ◌++◌, ◌≡◌, inl, inr, refl, sym, ap, ◌∙◌, append_assoc,
  append-nil, length,
}
use pg_prism.Text.{Bytes}
use pg_prism.Guardian.Rules.{ConnectionContext}
use pg_prism.Proxy.Stream.{BufReader, content, Outgoing}
use pg_prism.Proxy.Client.Upstream.{IsPrefix}
use pg_prism.Proxy.Forward.{
  Relay, Taken, sent_on, held_back, ends, after_turn, settle, refuse, forward_one, client_to_server,
}
use pg_prism.Proxy.Forward.Copy.{Works}
use pg_prism.Proxy.Forward.Reference.{Front, passes, blocked, cut, relay_of}
use pg_prism.Proxy.Forward.Reference.Round.{TakesAs, take_one-TakesAs}
use pg_prism.Proxy.Forward.Reference.Stream.{client_to_server-relay_of}
use pg_prism.Proxy.Forward.Failing.{FailsOnce, Broken, Same, Behind}
use pg_prism.Proxy.Forward.Failing.Round.{
  TakenSim, both_sent, both_held, both_end, failed_on, failed_end, take_one-TakenSim,
}
use pg_prism.Proxy.Forward.Failing.Kept.{Kept, IsStuck, take_one-IsStuck}

module _ (context : ConnectionContext) where
  -- The server's side of the loop's end.
  abbrev upstream_behind : ℕ → Taken → BufReader → Outgoing → Outgoing → Bytes
  upstream_behind fuel x reader up client =
      (after_turn (settle (record { reader = reader; upstream = up; client = client }) x)
        (λ next. client_to_server fuel context next)).1.upstream.sent

  -- Over a socket that has failed the loop sends nothing on it.
  turn-IsStuck :
      (fuel : ℕ) (reader : BufReader) (up client : Outgoing) (x : Taken)
      → Broken up
      → Kept (IsStuck up.sent) x
      → ((relay : Relay)
          → Broken relay.upstream
          → (client_to_server fuel context relay).1.upstream.sent ≡ relay.upstream.sent)
      → upstream_behind fuel x reader up client ≡ up.sent
  turn-IsStuck fuel reader up client (sent_on r up') was (sent, broken) rest =
      rest (record { reader = r; upstream = up'; client = client }) broken ∙ sent
  turn-IsStuck fuel reader up client (held_back r) was silent rest =
      rest (record { reader = r; upstream = up; client = refuse client }) was
  turn-IsStuck fuel reader up client (ends e r up') was (sent, broken) rest = sent

  client_to_server-Broken :
      (fuel : ℕ) (relay : Relay)
      → Broken relay.upstream
      → (client_to_server fuel context relay).1.upstream.sent ≡ relay.upstream.sent
  unfolding client_to_server forward_one
  client_to_server-Broken zero relay broken = refl
  client_to_server-Broken (suc fuel) relay broken =
      turn-IsStuck fuel relay.reader relay.upstream relay.client _ broken
        (take_one-IsStuck context relay.reader relay.upstream broken)
        (λ next broken'. client_to_server-Broken fuel next broken')

  IsPrefix-sent :
      (old part last now : Bytes) → now ≡ old ++ part → IsPrefix now last → IsPrefix old last
  IsPrefix-sent old part last now e (rest, all) =
      (part ++ rest, sym (append_assoc old part rest) ∙ ap (λ (b : Bytes). b ++ rest) (sym e) ∙ all)

  -- Over one that works it only adds to what was sent.
  turn-grows :
      (fuel : ℕ) (front : Front) (reader : BufReader) (up client : Outgoing) (x : Taken)
      → Works up
      → TakesAs front reader up x
      → ((relay : Relay)
          → Works relay.upstream
          → IsPrefix relay.upstream.sent (client_to_server fuel context relay).1.upstream.sent)
      → IsPrefix up.sent (upstream_behind fuel x reader up client)
  turn-grows fuel (passes message more) reader up client x works
        (r, up', e, behind, same, sent, works') rest =
      rw e (
        IsPrefix-sent up.sent message _ up'.sent sent
          (rest (record { reader = r; upstream = up'; client = client }) works'))
  turn-grows fuel (blocked more) reader up client x works (r, e, behind, same) rest =
      rw e (rest (record { reader = r; upstream = up; client = refuse client }) works)
  turn-grows fuel (cut part) reader up client x works (inl (e, nothing)) rest =
      rw e ([], append-nil up.sent)
  turn-grows fuel (cut part) reader up client x works
        (inr (r, up', e, none_left, same, sent, works')) rest =
      rw e (
        IsPrefix-sent up.sent part _ up'.sent sent
          (rest (record { reader = r; upstream = up'; client = client }) works'))

  client_to_server-grows :
      (fuel : ℕ) (relay : Relay)
      → Works relay.upstream
      → IsPrefix relay.upstream.sent (client_to_server fuel context relay).1.upstream.sent
  unfolding client_to_server forward_one
  client_to_server-grows zero relay works = ([], append-nil relay.upstream.sent)
  client_to_server-grows (suc fuel) relay works =
      turn-grows fuel _ relay.reader relay.upstream relay.client _ works
        (take_one-TakesAs context relay.reader relay.upstream works (content relay.reader) refl)
        (λ next works'. client_to_server-grows fuel next works')

  prefix_of_prefix : (a b c : Bytes) → IsPrefix a b → IsPrefix b c → IsPrefix a c
  prefix_of_prefix a b c (x, e) (y, e') = IsPrefix-sent a x c b (sym e) (y, e')

  -- What was sent over a socket that failed stays, and what the working one was sent grows.
  failed_prefix :
      (fuel : ℕ) (r r' : BufReader) (up good client client' : Outgoing)
      → Behind up good
      → IsPrefix
          (client_to_server fuel context
            (record { reader = r; upstream = up; client = client })).1.upstream.sent
          (client_to_server fuel context
            (record { reader = r'; upstream = good; client = client' })).1.upstream.sent
  failed_prefix fuel r r' up good client client' (broken, front, works) =
      rw
        (client_to_server-Broken fuel (record { reader = r; upstream = up; client = client })
          broken)
        (prefix_of_prefix up.sent good.sent _ front (
          client_to_server-grows fuel (record { reader = r'; upstream = good; client = client' })
            works))

  turn-TakenSim :
      (fuel : ℕ) (reader : BufReader) (up good client client' : Outgoing) (x y : Taken)
      → Same up good
      → TakenSim x y
      → ((r : BufReader) (u g c c' : Outgoing)
          → Same u g
          → IsPrefix
              (client_to_server fuel context
                (record { reader = r; upstream = u; client = c })).1.upstream.sent
              (client_to_server fuel context
                (record { reader = r; upstream = g; client = c' })).1.upstream.sent)
      → IsPrefix
          (upstream_behind fuel x reader up client)
          (upstream_behind fuel y reader good client')
  turn-TakenSim fuel reader up good client client' _ _ was (both_sent {up = u} {good = g} r same)
        rest =
      rest r u g client client' same
  turn-TakenSim fuel reader up good client client' _ _ was (both_held r) rest =
      rest r up good (refuse client) (refuse client') was
  turn-TakenSim fuel reader up good client client' _ _ was
        (both_end {up = u} {good = g} e r (same, once, works)) rest =
      ([], append-nil u.sent ∙ same)
  turn-TakenSim fuel reader up good client client' _ _ was
        (failed_on {up = u} {good = g} r r' behind) rest =
      failed_prefix fuel r r' u g client client' behind
  turn-TakenSim fuel reader up good client client' _ _ was
        (failed_end {up = u} {good = g} e r r' (broken, front, works)) rest =
      prefix_of_prefix u.sent g.sent _ front
        (client_to_server-grows fuel (record { reader = r'; upstream = g; client = client' }) works)

  client_to_server-Same :
      (fuel : ℕ) (r : BufReader) (up good client client' : Outgoing)
      → Same up good
      → IsPrefix
          (client_to_server fuel context
            (record { reader = r; upstream = up; client = client })).1.upstream.sent
          (client_to_server fuel context
            (record { reader = r; upstream = good; client = client' })).1.upstream.sent
  unfolding client_to_server forward_one
  client_to_server-Same zero r up good client client' (same, once, works) =
      ([], append-nil up.sent ∙ same)
  client_to_server-Same (suc fuel) r up good client client' same =
      turn-TakenSim fuel r up good client client' _ _ same
        (take_one-TakenSim up good same context r)
        (λ r' u g c c' same'. client_to_server-Same fuel r' u g c c' same')

-- A socket like it of which every write succeeds.
abbrev pub mended : Outgoing → Outgoing
mended up = record { sent = up.sent; writes = up.writes; fate = λ n. none }

-- Whatever bytes the client sends, in whatever pieces, and whichever write to the server fails first,
-- if nothing is sent on that socket behind it: what the server has been sent is a beginning of what
-- `relay_of` makes of the bytes. What is refused never reaches it, and nothing is out of order,
-- though the task may go on to take what is left of a message for another. Fuel for two rounds more
-- than there are bytes is enough.
pub client_to_server-IsPrefix :
    (context : ConnectionContext) (fuel : ℕ) (relay : Relay)
    → length (content relay.reader) + 1 < fuel
    → FailsOnce relay.upstream
    → IsPrefix
        (client_to_server fuel context relay).1.upstream.sent
        (relay.upstream.sent ++ (relay_of fuel context (content relay.reader)).0)
client_to_server-IsPrefix context fuel relay enough once =
    let up = relay.upstream in
    let good : Relay = record {
      reader = relay.reader;
      upstream = mended up;
      client = mended relay.client;
    } in
    let (ending, sent, answers) =
      client_to_server-relay_of context fuel good enough (λ n. refl) (λ n. refl) in
    subst (λ b. IsPrefix (client_to_server fuel context relay).1.upstream.sent b) sent
      (client_to_server-Same context fuel relay.reader up (mended up) relay.client
        (mended relay.client) (refl, once, λ n. refl))
