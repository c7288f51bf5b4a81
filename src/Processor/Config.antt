-- ===== src/Processor/Config.antt =====
-- `newDefaultDeps` of lambda/processor/main.go: the settings, with the AI client as an opt-in.
pub mod OptIn
use serverless_error_ingest.Processor.Ai.{AiClient}
use serverless_error_ingest.Base.{
  not, ◌&&◌, ◌||◌, Option, none, some, ◌++◌, if◌then◌else◌, Bytes, codes, equal, is_empty, Result,
  ok, err,
}

-- `processorDeps`, and the AI client.
pub record ProcessorDeps : Type 0 where
  pub events_table : Bytes
  pub raw_bucket : Bytes
  pub ai : Option AiClient

abbrev pub or_default_model : Bytes → Bytes
or_default_model model = if is_empty model then codes "gpt-4o-mini" else model

-- `os.Getenv` is the function `env`; a variable that is not set is empty.
unfoldable pub ai_client : (Bytes → Bytes) → Option AiClient
unfolding is_empty equal
ai_client env =
    if not (is_empty (env (codes "AI_API_KEY")))
      && (not (is_empty (env (codes "AI_ENDPOINT")))
          && equal (env (codes "PROJECT_ALLOW_AI")) (codes "true"))
    then some (record {
      endpoint = env (codes "AI_ENDPOINT");
      key = env (codes "AI_API_KEY");
      model = or_default_model (env (codes "AI_MODEL"));
    })
    else none

-- `newDefaultDeps`, with the error of loading the AWS configuration.
unfoldable pub new_default_deps : Option Bytes → (Bytes → Bytes) → Result Bytes ProcessorDeps
unfolding is_empty ai_client
new_default_deps (some e) env = err (codes "loading AWS config: " ++ e)
new_default_deps none env =
    if is_empty (env (codes "EVENTS_TABLE")) || is_empty (env (codes "RAW_BUCKET"))
    then err (codes "EVENTS_TABLE and RAW_BUCKET must be set")
    else ok (record {
      events_table = env (codes "EVENTS_TABLE");
      raw_bucket = env (codes "RAW_BUCKET");
      ai = ai_client env;
    })
