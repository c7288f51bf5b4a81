-- ===== src/Query/Config.antt =====
-- `newDefaultDeps` of lambda/query/main.go.
use serverless_error_ingest.Base.{
  ◌||◌, Option, none, some, ◌++◌, if◌then◌else◌, Bytes, codes, is_empty, Result, ok, err,
}

-- `deps`, with the names that the two stores are made of.
pub record QueryDeps : Type 0 where
  pub events_table : Bytes
  pub projects_table : Bytes

-- `newDefaultDeps`, with the error of loading the AWS configuration.
unfoldable pub new_default_deps : Option Bytes → (Bytes → Bytes) → Result Bytes QueryDeps
unfolding is_empty
new_default_deps (some e) env = err (codes "loading AWS config: " ++ e)
new_default_deps none env =
    if is_empty (env (codes "EVENTS_TABLE")) || is_empty (env (codes "PROJECTS_TABLE"))
    then err (codes "EVENTS_TABLE and PROJECTS_TABLE must be set")
    else ok (record {
      events_table = env (codes "EVENTS_TABLE");
      projects_table = env (codes "PROJECTS_TABLE");
    })
