-- ===== src/Ingest/Config/Ranges.antt =====
-- The settings of a process that has started.
use serverless_error_ingest.Strconv.{atoi, signed, unsigned, int_limit}
use serverless_error_ingest.Ingest.Compress.{Codecs, decompress_body}
use serverless_error_ingest.Ingest.Compress.Cap.{Capped, decompress_body-Capped}
use serverless_error_ingest.Ingest.Config.{
  Env, Floats, Deps, int_or, env_int, float_or, env_float, lacks_name, configured, new_default_deps,
}
use serverless_error_ingest.Base.{
  ℕ, zero, suc, ◌<◌, ◌≡◌, refl, sym, ◌∙◌, ◌↔◌, inl, inr, Bool, true, false, Option, none, some, [],
  ◌∷◌, arith, ltb, ◌==◌, ltb→lt, Bool-cases, Bytes, codes, is_empty, Result, ok, err, true-ne-false,
  ℤ, pos, negsuc,
}

-- A positive int64.
pub record IsPositive (n : ℕ) : Type 0 where
  pub not_zero : 0 < n
  pub fits : n < int_limit

-- An int64.
abbrev Fits : Option ℤ → Type 0
Fits none = Unit
Fits (some (pos n)) = n < int_limit
Fits (some (negsuc n)) = Unit

signed-Fits : (negative : Bool) (n : Option ℕ) → Fits (signed negative n)
signed-Fits negative none = tt
signed-Fits false (some n) = elim (Bool-cases (ltb n int_limit)) [
  | inl small ↦ rw small (ltb→lt n int_limit small)
  | inr large ↦ rw large tt
]
signed-Fits true (some zero) = omega arith
signed-Fits true (some (suc n)) = elim (Bool-cases (ltb n int_limit)) [
  | inl small ↦ rw small tt
  | inr large ↦ rw large tt
]

atoi-Fits : (s : Bytes) → Fits (atoi s)
unfolding atoi
atoi-Fits [] = tt
atoi-Fits (c ∷ s) = elim (Bool-cases (c == b'-')) [
  | inl minus ↦ rw minus (signed-Fits true (unsigned s))
  | inr unsigned_ ↦ elim (Bool-cases (c == b'+')) [
    | inl plus ↦ rw (unsigned_, plus) (signed-Fits false (unsigned s))
    | inr digits ↦ rw (unsigned_, digits) (signed-Fits false (unsigned (c ∷ s)))
  ]
]

int_or-IsPositive :
    (default : ℕ) (n : Option ℤ) → IsPositive default → Fits n → IsPositive (int_or default n)
int_or-IsPositive default none d h = d
int_or-IsPositive default (some (negsuc n)) d h = d
int_or-IsPositive default (some (pos zero)) d h = d
int_or-IsPositive default (some (pos (suc n))) d h = record { not_zero = omega arith; fits = h }

env_int-IsPositive :
    (env : Env) (name : Bytes) (default : ℕ)
    → IsPositive default
    → IsPositive (env_int env name default)
unfolding env_int
env_int-IsPositive env name default d = elim (Bool-cases (is_empty (env name))) [
  | inl unset ↦ rw unset d
  | inr given ↦ rw given (int_or-IsPositive default (atoi (env name)) d (atoi-Fits (env name)))
]

module _ {F : Type 0} (floats : Floats F) where
  float_or-le_zero :
      (default : F) (n : Option F)
      → floats.le_zero default ≡ false
      → floats.le_zero (float_or floats default n) ≡ false
  float_or-le_zero default none d = d
  float_or-le_zero default (some f) d = elim (Bool-cases (floats.le_zero f)) [
    | inl refused ↦ rw refused d
    | inr taken ↦ rw taken taken
  ]

  env_float-le_zero :
      (env : Env) (name : Bytes) (default : F)
      → floats.le_zero default ≡ false
      → floats.le_zero (env_float floats env name default) ≡ false
  unfolding env_float
  env_float-le_zero env name default d = elim (Bool-cases (is_empty (env name))) [
    | inl unset ↦ rw unset d
    | inr given ↦ rw given (float_or-le_zero default (floats.scan (env name)) d)
  ]

-- The environment names both tables and the bucket.
pub record IsNamed (env : Env) : Type 0 where
  pub events : is_empty (env (codes "EVENTS_TABLE")) ≡ false
  pub projects : is_empty (env (codes "PROJECTS_TABLE")) ≡ false
  pub bucket : is_empty (env (codes "RAW_BUCKET")) ≡ false

-- What holds of the settings: the names are the environment's, the numbers are in range, and the cap
-- bounds what any encoding lets through.
pub record IsConfigured {F : Type 0} (floats : Floats F) (env : Env) (d : Deps F) : Type 0 where
  pub named : IsNamed env
  pub events_table : d.events_table ≡ env (codes "EVENTS_TABLE")
  pub projects_table : d.projects_table ≡ env (codes "PROJECTS_TABLE")
  pub raw_bucket : d.raw_bucket ≡ env (codes "RAW_BUCKET")
  pub rate : floats.le_zero d.rate ≡ false
  pub burst : floats.le_zero d.burst ≡ false
  pub max_body_bytes : IsPositive d.max_body_bytes
  pub event_ttl_days : IsPositive d.event_ttl_days
  pub capped :
      (codecs : Codecs) (encoding body : Bytes)
      → Capped d.max_body_bytes (decompress_body codecs encoding body d.max_body_bytes)

-- A start: an error, or the settings.
pub data IsStart {F : Type 0} (floats : Floats F) (env : Env) (load : Option Bytes)
    (r : Result Bytes (Deps F)) : Type 0 where
  refused : (e : Bytes) → r ≡ err e → ¬ ((load ≡ none) × IsNamed env) → IsStart floats env load r
  started :
      (d : Deps F) → r ≡ ok d → load ≡ none → IsConfigured floats env d → IsStart floats env load r

lacks_name-IsNamed : (env : Env) → (lacks_name env ≡ false) ↔ IsNamed env
lacks_name-IsNamed env = (
  λ h. record { events = ground arith; projects = ground arith; bucket = ground arith },
  λ n. rw (n.events, n.projects, n.bucket) refl,
)

module _ {F : Type 0} (floats : Floats F) (env : Env) (five : floats.le_zero floats.five ≡ false)
    (ten : floats.le_zero floats.ten ≡ false) where
  configured-IsConfigured : IsNamed env → IsConfigured floats env (configured floats env)
  configured-IsConfigured named =
      let cap =
        env_int-IsPositive env (codes "MAX_BODY_BYTES") 1048576
          (record { not_zero = omega arith; fits = omega arith }) in
      record {
        named = named;
        events_table = refl;
        projects_table = refl;
        raw_bucket = refl;
        rate = env_float-le_zero floats env (codes "RATE_LIMIT_RPS") floats.five five;
        burst = env_float-le_zero floats env (codes "RATE_LIMIT_BURST") floats.ten ten;
        max_body_bytes = cap;
        event_ttl_days =
            env_int-IsPositive env (codes "EVENT_TTL_DAYS") 90
              (record { not_zero = omega arith; fits = omega arith });
        capped = λ codecs encoding body. decompress_body-Capped codecs _ cap.not_zero encoding body;
      }

  -- A process starts exactly where the AWS configuration loads and the environment names both tables and
  -- the bucket; and then, whatever else the environment holds, the cap and the days to live are positive
  -- int64s, rate and burst are not at most zero, and no body comes through decompression above the cap.
  -- The floats 5 and 10 are taken to be above zero.
  pub new_default_deps-IsStart :
      (load : Option Bytes) → IsStart floats env load (new_default_deps floats load env)
  unfolding new_default_deps
  new_default_deps-IsStart (some e) = refused _ refl (λ h. cc (h.0))
  new_default_deps-IsStart none = elim (Bool-cases (lacks_name env)) [
    | inl lacks ↦
        rw lacks (refused _ refl (λ h. true-ne-false (sym lacks ∙ (lacks_name-IsNamed env).1 h.1)))
    | inr full ↦
        rw full (started _ refl refl (configured-IsConfigured ((lacks_name-IsNamed env).0 full)))
  ]
