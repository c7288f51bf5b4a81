-- ===== src/Ingest/Config.antt =====
-- `newDefaultDeps` of lambda/ingest/store.go: the settings, read from the environment.
pub mod Ranges
use serverless_error_ingest.Strconv.{atoi}
use serverless_error_ingest.Base.{
  ℕ, zero, suc, Bool, ◌||◌, Option, none, some, ◌++◌, if◌then◌else◌, Bytes, codes, is_empty, Result,
  ok, err, ℤ, pos, negsuc,
}

-- `os.Getenv`; a variable that is not set is empty.
abbrev pub Env : Type 0
Env = Bytes → Bytes

-- The floats that the settings use: `fmt.Sscanf` with `%f`, the test `f <= 0`, and two constants.
pub record Floats (F : Type 0) : Type 0 where
  pub scan : Bytes → Option F
  pub le_zero : F → Bool
  pub five : F
  pub ten : F

-- `deps`, with the names that the stores are made of and the two numbers of the limiter.
pub record Deps (F : Type 0) : Type 0 where
  pub events_table : Bytes
  pub projects_table : Bytes
  pub raw_bucket : Bytes
  pub rate : F
  pub burst : F
  pub max_body_bytes : ℕ
  pub event_ttl_days : ℕ

abbrev pub int_or : ℕ → Option ℤ → ℕ
int_or default none = default
int_or default (some (negsuc n)) = default
int_or default (some (pos zero)) = default
int_or default (some (pos (suc n))) = suc n

-- `envInt`, for a default that is positive
unfoldable pub env_int : Env → Bytes → ℕ → ℕ
unfolding is_empty atoi
env_int env name default = if is_empty (env name) then default else int_or default (atoi (env name))

abbrev pub lacks_name : Env → Bool
lacks_name env =
    is_empty (env (codes "EVENTS_TABLE"))
    || (is_empty (env (codes "PROJECTS_TABLE")) || is_empty (env (codes "RAW_BUCKET")))

module _ {F : Type 0} (floats : Floats F) where
  abbrev pub float_or : F → Option F → F
  float_or default none = default
  float_or default (some f) = if floats.le_zero f then default else f

  -- `envFloat`
  unfoldable pub env_float : Env → Bytes → F → F
  unfolding is_empty
  env_float env name default =
      if is_empty (env name) then default else float_or default (floats.scan (env name))

  abbrev pub configured : Env → Deps F
  configured env = record {
    events_table = env (codes "EVENTS_TABLE");
    projects_table = env (codes "PROJECTS_TABLE");
    raw_bucket = env (codes "RAW_BUCKET");
    rate = env_float env (codes "RATE_LIMIT_RPS") floats.five;
    burst = env_float env (codes "RATE_LIMIT_BURST") floats.ten;
    max_body_bytes = env_int env (codes "MAX_BODY_BYTES") 1048576;
    event_ttl_days = env_int env (codes "EVENT_TTL_DAYS") 90;
  }

  -- `newDefaultDeps`, with the error of loading the AWS configuration.
  unfoldable pub new_default_deps : Option Bytes → Env → Result Bytes (Deps F)
  unfolding is_empty
  new_default_deps (some e) env = err (codes "loading AWS config: " ++ e)
  new_default_deps none env =
      if lacks_name env
      then err (codes "EVENTS_TABLE, PROJECTS_TABLE and RAW_BUCKET must be set")
      else ok (configured env)
