-- ===== src/Proxy/Forward/Tests.antt =====
-- Runs of the two directions.
use pg_prism.Prelude.{
  ℕ, Option, ltb, some, if◌then◌else◌, ◌==◌, List, [], ◌∷◌, ◌++◌, ◌≡◌, refl, arith, none,
}
use pg_prism.Text.{Bytes, codes}
use pg_prism.Wire.{to_be_bytes}
use pg_prism.Guardian.Rules.{ConnectionContext, inspect}
use pg_prism.Proxy.Stream.{closed, buffered, content, flatten, Outgoing}
use pg_prism.Proxy.Client.{new_socket}
use pg_prism.Proxy.Forward.{Relay, half_closed, client_to_server, server_to_client}
use pg_prism.Proxy.Forward.Answers.{SentOf, server_to_client-SentOf, server_to_client-whole}
use pg_prism.Proxy.Forward.Relayed.{Message}
use pg_prism.Proxy.Client.Upstream.{IsPrefix}
use pg_prism.Proxy.Forward.Failing.{FailsOnce}
use pg_prism.Proxy.Forward.Failing.Stream.{client_to_server-IsPrefix}
use pg_prism.Proxy.Forward.Reference.{relay_of}
use pg_prism.Proxy.Forward.Reference.Stream.{Relays, client_to_server-relay_of}
use pg_prism.Proxy.Forward.Messages.{encode_all, passed, refusals, client_to_server-passed}

abbrev no_drops : ConnectionContext
no_drops = record { action = inspect; block_queries = codes "DROP" ∷ []; block_tables = [] }

-- A statement that is blocked, one that is not, and data.
abbrev messages : List Message
messages =
    record { tag = b'Q'; body = codes "drop table t" }
    ∷ record { tag = b'Q'; body = codes "select 1" }
    ∷ record { tag = b'd'; body = codes "drop" }
    ∷ []

abbrev relay : Relay
relay = record {
  reader = buffered (record { chunks = encode_all messages ∷ []; ending = closed });
  upstream = new_socket (λ n. none);
  client = new_socket (λ n. none);
}

client_to_server-passed_example :
    (last : Relay) × (client_to_server 10 no_drops relay ≡ (half_closed, last))
    × (last.upstream.sent ≡ relay.upstream.sent ++ passed no_drops messages)
    × (last.client.sent ≡ relay.client.sent ++ refusals no_drops messages)
unfolding content to_be_bytes
client_to_server-passed_example =
    client_to_server-passed no_drops messages relay 10
      (omega arith, (omega arith, (omega arith, tt))) (omega arith) refl refl (λ n. refl)
      (λ n. refl)

-- Two reads, and a client whose second write fails after two bytes.
abbrev answers : List Bytes
answers = codes "abc" ∷ codes "def" ∷ []

abbrev cut_client : Outgoing
cut_client = new_socket (λ n. if n == 1 then some 2 else none)

cut_answers :
    SentOf cut_client.sent (server_to_client answers closed cut_client).1.sent (flatten answers)
cut_answers = server_to_client-SentOf answers closed cut_client

whole_answers :
    ((server_to_client answers closed relay.client).0 ≡ half_closed)
    × ((server_to_client answers closed relay.client).1.sent ≡ relay.client.sent ++ flatten answers)
whole_answers = server_to_client-whole answers closed relay.client (refl, (refl, tt)) (λ n. refl)

-- A message cut off by the end of the stream, behind one that is blocked.
abbrev cut_relay : Relay
cut_relay = record {
  reader =
      buffered (record { chunks = (encode_all messages ++ codes "Qab") ∷ []; ending = closed });
  upstream = new_socket (λ n. none);
  client = new_socket (λ n. none);
}

client_to_server-relay_of_example :
    Relays cut_relay
      (relay_of 90 no_drops (content cut_relay.reader))
      (client_to_server 90 no_drops cut_relay)
unfolding content flatten to_be_bytes
client_to_server-relay_of_example =
    client_to_server-relay_of no_drops 90 cut_relay (omega arith) (λ n. refl) (λ n. refl)

-- The server goes in the middle of the fifth write, with the blocked statement already held back.
abbrev broken_fate : ℕ → Option ℕ
broken_fate n = if n == 4 then some 2 else if ltb n 4 then none else some 0

broken_fate-FailsOnce : FailsOnce (new_socket broken_fate)
broken_fate-FailsOnce n k m e less = ground arith

abbrev broken_relay : Relay
broken_relay = record {
  reader = buffered (record { chunks = encode_all messages ∷ []; ending = closed });
  upstream = new_socket broken_fate;
  client = new_socket (λ n. none);
}

client_to_server-IsPrefix_example :
    IsPrefix
      (client_to_server 90 no_drops broken_relay).1.upstream.sent
      (broken_relay.upstream.sent ++ (relay_of 90 no_drops (content broken_relay.reader)).0)
unfolding content flatten to_be_bytes
client_to_server-IsPrefix_example =
    client_to_server-IsPrefix no_drops 90 broken_relay (omega arith) broken_fate-FailsOnce
