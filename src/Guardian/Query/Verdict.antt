-- ===== src/Guardian/Query/Verdict.antt =====
-- When `check_query` of core/rust/src/guardian.rs refuses a statement.
use pg_prism.Prelude.{true, false, List, [], ◌∷◌, ◌≡◌, ◌≢◌, ◌↔◌, inl, inr, refl, arith, Bool-cases}
use pg_prism.Text.{Bytes}
use pg_prism.Guardian.Query.{blocked_by, check_action, check_query}
use pg_prism.Guardian.Rules.{Action, allow, inspect, deny, ConnectionContext}
use pg_prism.Guardian.Token.{contains_token_ignore_ascii_case}
use pg_prism.Guardian.Token.Matches.{HasToken, contains_token_ignore_ascii_case_iff}

-- A word of the list stands in the statement as a whole token.
pub data SomeToken (query : Bytes) : List Bytes → Type 0 where
  here :
      {word : Bytes} {words : List Bytes}
      → word ≢ []
      → HasToken query word
      → SomeToken query (word ∷ words)
  there :
      {word : Bytes} {words : List Bytes} → SomeToken query words → SomeToken query (word ∷ words)

blocked_by-SomeToken :
    (query : Bytes) (words : List Bytes) → blocked_by query words ≡ true → SomeToken query words
unfolding blocked_by
blocked_by-SomeToken query [] h = absurd (cc h)
blocked_by-SomeToken query (word ∷ words) h =
    elim (Bool-cases (contains_token_ignore_ascii_case query word)) [
      | inl hit ↦ let (ne, t) = (contains_token_ignore_ascii_case_iff query word).0 hit in here ne t
      | inr miss ↦ there (blocked_by-SomeToken query words (rw miss at h))
    ]

SomeToken-blocked_by :
    {query : Bytes} {words : List Bytes} → SomeToken query words → blocked_by query words ≡ true
unfolding blocked_by
SomeToken-blocked_by {query} (here {word} {words} ne t) =
    rw ((contains_token_ignore_ascii_case_iff query word).1 (ne, t)) refl
SomeToken-blocked_by {query} (there {word} {words} s) = ground (arith, SomeToken-blocked_by s)

-- What a statement must be to be refused.
pub data IsRefused (query : Bytes) (context : ConnectionContext) : Type 0 where
  by_action : context.action ≡ deny → IsRefused query context
  by_command :
      context.action ≡ inspect → SomeToken query context.block_queries → IsRefused query context
  by_table :
      context.action ≡ inspect → SomeToken query context.block_tables → IsRefused query context

check_action-IsRefused :
    (action : Action) (query : Bytes) (context : ConnectionContext)
    → context.action ≡ action
    → check_action action query context ≡ false
    → IsRefused query context
unfolding check_action
check_action-IsRefused allow query context e h = absurd (cc h)
check_action-IsRefused deny query context e h = by_action e
check_action-IsRefused inspect query context e h =
    elim (Bool-cases (blocked_by query context.block_queries)) [
      | inl hit ↦ by_command e (blocked_by-SomeToken query context.block_queries hit)
      | inr miss ↦ elim (Bool-cases (blocked_by query context.block_tables)) [
        | inl hit ↦ by_table e (blocked_by-SomeToken query context.block_tables hit)
        | inr pass ↦ absurd (cc (rw (miss, pass) at h))
      ]
    ]

IsRefused-check_action :
    {query : Bytes} {context : ConnectionContext}
    → IsRefused query context
    → check_action context.action query context ≡ false
unfolding check_action
IsRefused-check_action (by_action e) = rw e refl
IsRefused-check_action (by_command e t) = rw (e, SomeToken-blocked_by t) refl
IsRefused-check_action {query} {context} (by_table e t) =
    rw e (elim (Bool-cases (blocked_by query context.block_queries)) [
      | inl hit ↦ rw hit refl
      | inr miss ↦ rw (miss, SomeToken-blocked_by t) refl
    ])

-- A statement is refused exactly if the connection's action is DENY, or it is INSPECT and some
-- word of the blocked commands or of the blocked tables, not an empty one, stands in the statement
-- as a whole token up to ASCII case. Under ALLOW nothing is refused.
pub check_query_iff :
    (query : Bytes) (context : ConnectionContext)
    → (check_query query context ≡ false) ↔ IsRefused query context
unfolding check_query
check_query_iff query context =
    (check_action-IsRefused context.action query context refl, IsRefused-check_action)
