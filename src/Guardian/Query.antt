-- ===== src/Guardian/Query.antt =====
-- `Guardian::check_query` of core/rust/src/guardian.rs: may the statement go on to the server?
pub mod Verdict
use pg_prism.Prelude.{Bool, true, false, List, [], ◌∷◌, if◌then◌else◌}
use pg_prism.Text.{Bytes}
use pg_prism.Guardian.Rules.{Action, allow, inspect, deny, ConnectionContext}
use pg_prism.Guardian.Token.{contains_token_ignore_ascii_case}

-- A loop over a block list: is some word of it in the statement?
unfoldable pub blocked_by : Bytes → List Bytes → Bool
blocked_by query [] = false
blocked_by query (word ∷ words) =
    if contains_token_ignore_ascii_case query word then true else blocked_by query words

abbrev pub passes_lists : Bytes → ConnectionContext → Bool
passes_lists query context =
    if blocked_by query context.block_queries
    then false
    else if blocked_by query context.block_tables
    then false
    else true

-- The two tests on the action come first.
pub check_action : Action → Bytes → ConnectionContext → Bool
check_action allow query context = true
check_action deny query context = false
check_action inspect query context = passes_lists query context

unfoldable pub check_query : Bytes → ConnectionContext → Bool
unfolding check_action blocked_by
check_query query context = check_action context.action query context
