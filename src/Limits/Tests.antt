-- ===== src/Limits/Tests.antt =====
-- A run of `limits_from_env`.
use pg_prism.Prelude.{some}
use pg_prism.Text.{codes}
use pg_prism.Limits.{Env, limits_from_env}
use pg_prism.Limits.FromEnv.{LimitsOutcome, limits_from_env-LimitsOutcome}

abbrev all_three : Env
all_three name = some (codes " 3 ")

limits_from_env-LimitsOutcome_example : LimitsOutcome all_three (limits_from_env all_three)
limits_from_env-LimitsOutcome_example = limits_from_env-LimitsOutcome all_three
