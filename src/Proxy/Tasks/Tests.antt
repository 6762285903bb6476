-- ===== src/Proxy/Tasks/Tests.antt =====
-- Runs of the two tasks.
use pg_prism.Prelude.{
  ◌+◌, ◌≤◌, List, [], ◌∷◌, ◌++◌, ◌≡◌, refl, none, inr, some, ℕ, Option, ltb, ◌==◌, if◌then◌else◌,
  arith,
}
use pg_prism.Text.{Bytes, codes}
use pg_prism.Wire.{to_be_bytes, from_be_bytes}
use pg_prism.Guardian.Token.{contains_token_ignore_ascii_case}
use pg_prism.Guardian.Rules.{ConnectionContext, inspect}
use pg_prism.Guardian.Query.{check_query}
use pg_prism.Proxy.Stream.{closed, buffered, read_exact, write_all}
use pg_prism.Proxy.Client.{new_socket, Session}
use pg_prism.Proxy.Forward.{take_one}
use pg_prism.Proxy.Tasks.{
  State, begin, Reach, unmoved, later, hold, up_lock, refuse_sent, ready_sent, answer, answers_over,
  down_lock, send_done, send_failed, shut, AtEnd,
}
use pg_prism.Proxy.Tasks.Invariant.{InvAt, Block, all_bytes, answers_in}
use pg_prism.Proxy.Tasks.Reachable.{Reach-InvAt}
use pg_prism.Proxy.Tasks.Delivery.{Reach-delivered}
use pg_prism.Proxy.Tasks.Work.{work}
use pg_prism.Proxy.Tasks.Halting.{steps, Halts, steps-bounded, Reach-Halts}
use pg_prism.Proxy.Forward.Relayed.{Message}
use pg_prism.Proxy.Forward.Messages.{encode_all}
use pg_prism.Proxy.Forward.Failing.{FailsOnce}
use pg_prism.Proxy.Tasks.Downstream.{Framed}
use pg_prism.Proxy.Tasks.Downstream.Reached.{Reach-Framed}

abbrev no_drops : ConnectionContext
no_drops = record { action = inspect; block_queries = codes "DROP" ∷ []; block_tables = [] }

-- A statement that is blocked and one that is not, and a server that answers twice.
abbrev messages : List Message
messages =
    record { tag = b'Q'; body = codes "drop table t" }
    ∷ record { tag = b'Q'; body = codes "select 1" }
    ∷ []

abbrev session : Session
session = record {
  client_in = buffered (record { chunks = encode_all messages ∷ []; ending = closed });
  client_out = new_socket (λ n. none);
  upstream = new_socket (λ n. none);
  context = no_drops;
}

abbrev answers : List Bytes
answers = codes "abc" ∷ codes "def" ∷ []

abbrev Ran : Type 0
Ran = (s : State) × Reach no_drops (begin session answers closed) s

abbrev init : State
init = begin session answers closed

-- The statement is held back, and its refusal waits for the lock while an answer is sent.
abbrev held_up : Ran
unfolding take_one read_exact to_be_bytes from_be_bytes check_query contains_token_ignore_ascii_case
    write_all
held_up = (
  _,
  later
      (later
        (later (later (later unmoved (hold _ refl refl)) (answer _ _ _ refl refl))
          (down_lock _ refl refl))
        (send_done _ _ refl refl))
      (up_lock refl refl),
)

-- Then the refusal is sent, the second answer is, and the client's socket is shut down.
abbrev shut_down : Ran
unfolding held_up take_one read_exact to_be_bytes from_be_bytes check_query
    contains_token_ignore_ascii_case write_all
shut_down = (
  _,
  later
      (later
        (later
          (later
            (later (later (later held_up.1 (refuse_sent _ refl refl)) (ready_sent refl))
              (answer _ _ _ refl refl))
            (down_lock _ refl refl))
          (send_done _ _ refl refl))
        (answers_over refl (inr (refl, refl))))
      (shut refl refl),
)

Reach-InvAt_example : InvAt no_drops init shut_down.0
Reach-InvAt_example =
    Reach-InvAt no_drops session answers closed shut_down.0 (λ n. refl) (λ n. refl) shut_down.1

Reach-delivered_example :
    (blocks : List Block) × (shut_down.0.client.sent ≡ session.client_out.sent ++ all_bytes blocks)
    × (answers_in blocks ++ shut_down.0.answers ≡ answers)
    × AtEnd shut_down.0
unfolding take_one read_exact to_be_bytes from_be_bytes check_query contains_token_ignore_ascii_case
    write_all
Reach-delivered_example =
    Reach-delivered session answers closed no_drops shut_down.0 (λ n. refl) (λ n. refl) shut_down.1
      refl

steps-bounded_example : steps shut_down.1 + work shut_down.0 ≤ work init
steps-bounded_example =
    steps-bounded no_drops session answers closed shut_down.0 (λ n. refl) (λ n. refl) shut_down.1

Reach-Halts_example : Halts no_drops held_up.0
Reach-Halts_example =
    Reach-Halts no_drops session answers closed held_up.0 (λ n. refl) (λ n. refl) held_up.1

-- A client that goes in the middle of the second packet of the refusal.
torn_fate : ℕ → Option ℕ
torn_fate n = if n == 1 then some 2 else if ltb n 1 then none else some 0

torn_fate-FailsOnce : FailsOnce (new_socket torn_fate)
unfolding torn_fate
torn_fate-FailsOnce n k m e less = ground arith

abbrev torn_session : Session
torn_session = record session { client_out = new_socket torn_fate }

-- The refusal is torn, and an answer is then written in vain.
abbrev torn : (s : State) × Reach no_drops (begin torn_session answers closed) s
unfolding torn_fate take_one read_exact to_be_bytes from_be_bytes check_query
    contains_token_ignore_ascii_case write_all
torn = (
  _,
  later
      (later
        (later
          (later
            (later (later (later unmoved (hold _ refl refl)) (up_lock refl refl))
              (refuse_sent _ refl refl))
            (ready_sent refl))
          (answer _ _ _ refl refl))
        (down_lock _ refl refl))
      (send_failed _ _ refl refl),
)

Reach-Framed_example : Framed [] answers torn.0.client.sent
unfolding torn
Reach-Framed_example =
    Reach-Framed no_drops torn_session answers closed torn.0 torn_fate-FailsOnce torn.1
