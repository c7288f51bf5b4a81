-- ===== src/Tests/Lambda.antt =====
-- The process that serves requests, its settings and its limiter.
use serverless_error_ingest.Base.Int.{◌+ℤ◌, ◌-ℤ◌}
use serverless_error_ingest.Ingest.Auth.{extract_auth_key}
use serverless_error_ingest.Ingest.Registry.{validate_key}
use serverless_error_ingest.Ingest.Project.{project_id_of}
use serverless_error_ingest.Ingest.Compress.{decompress_body, first_case}
use serverless_error_ingest.Ingest.Persist.{Store}
use serverless_error_ingest.Ingest.Lambda.Writes.{
  Write, apply_write, apply_all, request_writes, handle_request-writes,
}
use serverless_error_ingest.Ingest.Lambda.Concurrent.{
  Running, idle, arrived, wrote, Running-IsSound,
}
use serverless_error_ingest.Ingest.Handler.{
  World, admit, read_body, decode_body, take_turn, content_of, content_encoding, is_store_route,
  handle_request,
}
use serverless_error_ingest.Ingest.RateLimit.{
  TokenBucket, RateLimiter, second, max_duration, refill, wait_time, decide, new_rate_limiter,
}
use serverless_error_ingest.Ingest.RateLimit.Wait.{missing, told, allowed_after, retry_after_lem}
use serverless_error_ingest.Ingest.RateLimit.Separate.{
  decisions, times_of, one_bucket, decisions-one_bucket,
}
use serverless_error_ingest.Ingest.Config.{Env, Floats, env_int, new_default_deps}
use serverless_error_ingest.Ingest.Config.Ranges.{IsStart, new_default_deps-IsStart}
use serverless_error_ingest.Ingest.Lambda.{Reach, started, served, nothing, next}
use serverless_error_ingest.Ingest.Lambda.Stored.{IsSound}
use serverless_error_ingest.Ingest.Lambda.Sound.{Reach-IsSound}
use serverless_error_ingest.Ingest.Lambda.Limited.{Arrival, answered, answered-le}
use serverless_error_ingest.Tests.Samples.{
  service, request, get_project, no_faults, empty_store, world, zero_hash-IsHash,
}
use serverless_error_ingest.Base.{
  ℕ, ◌+◌, ◌*◌, ◌/◌, ◌≤◌, ◌<◌, ◌≡◌, refl, ap, ◌↔◌, true, false, none, some, List, [], ◌∷◌, arith,
  ◌==◌, if◌then◌else◌, Bytes, codes, equal, pos,
}

-- A process starts and handles a request.
abbrev limited : World
limited = record { store = empty_store; limiter = some (new_rate_limiter 10 1 20) }

abbrev after_request : World
after_request = (handle_request service no_faults 5 (request [] (codes "abc123")) limited).1

one_request : Reach service after_request
one_request =
    next (next nothing (started 10 1 20)) (served no_faults 5 (request [] (codes "abc123")))

Reach-IsSound_example : IsSound get_project after_request.store
Reach-IsSound_example = Reach-IsSound service zero_hash-IsHash one_request

abbrev arrival : ℕ → Arrival
arrival now = record { faults = no_faults; now = now; req = request [] (codes "abc123") }

answered-le_example :
    answered service (codes "k1") limited (arrival 5 ∷ arrival 6 ∷ arrival 7 ∷ []) * 10 + 0 * 1
    ≤ 20 + 7 * 1
answered-le_example =
    answered-le service 10 1 20 0 7 (codes "k1") (arrival 5 ∷ arrival 6 ∷ arrival 7 ∷ [])
      empty_store (omega arith)

abbrev calls : List (Bytes × ℕ)
calls = (codes "a", 0) ∷ (codes "b", 1) ∷ (codes "a", 2) ∷ []

decisions-one_bucket_example :
    decisions (codes "a") (new_rate_limiter 10 1 20) calls
    ≡ one_bucket (new_rate_limiter 10 1 20) none (times_of (codes "a") calls)
decisions-one_bucket_example = decisions-one_bucket 10 1 20 (codes "a") calls

-- Floats as whole numbers, and an environment with a bad cap.
abbrev floats : Floats ℕ
floats = record { scan = λ s. some 0; le_zero = λ n. n == 0; five = 5; ten = 10 }

abbrev env : Env
env name = if equal name (codes "MAX_BODY_BYTES") then codes "-5" else codes "30"

bad_cap : env_int env (codes "MAX_BODY_BYTES") 1048576 ≡ 1048576
unfolding env_int equal
bad_cap = refl

good_days : env_int env (codes "EVENT_TTL_DAYS") 90 ≡ 30
unfolding env_int equal
good_days = refl

new_default_deps-IsStart_example : IsStart floats env none (new_default_deps floats none env)
new_default_deps-IsStart_example = new_default_deps-IsStart floats env refl refl none

-- Two processes take the same request, and the second one writes first.
abbrev writes : List Write
writes = request_writes service no_faults 5 (request [] (codes "abc123")) none

some_writes : (w : Write) × (ws : List Write) × (writes ≡ w ∷ ws)
unfolding request_writes admit read_body decode_body extract_auth_key validate_key project_id_of
    take_turn content_of decompress_body first_case content_encoding is_store_route
some_writes = (_, _, refl)

abbrev first_written : Store
first_written = apply_write some_writes.0 empty_store

one_written : Running service (writes ∷ some_writes.1 ∷ []) first_written
one_written =
    wrote (writes ∷ []) [] some_writes.0 some_writes.1
      (arrived no_faults 5 (request [] (codes "abc123")) none
        (arrived no_faults 5 (request [] (codes "abc123")) none idle))
      (ap (λ ws. writes ∷ ws ∷ []) some_writes.2) refl refl

Running-IsSound_example : IsSound get_project first_written
Running-IsSound_example = Running-IsSound service zero_hash-IsHash one_written

handle_request-writes_example :
    (handle_request service no_faults 5 (request [] (codes "abc123")) world).1.store
    ≡ apply_all writes empty_store
handle_request-writes_example =
    handle_request-writes service no_faults 5 (request [] (codes "abc123")) world

-- An empty bucket, and a token every four seconds.
abbrev slow : RateLimiter
slow = record { token = 4000000000; rate = 1; burst = 4000000000; buckets = [] }

abbrev spent_bucket : TokenBucket
spent_bucket = record { tokens = pos 500000000; last = 0 }

denied_first : (decide slow spent_bucket 0).allowed ≡ false
unfolding decide refill ◌+ℤ◌
denied_first = refl

wait_fits : missing slow (refill slow spent_bucket 0) / slow.rate < max_duration
unfolding refill ◌+ℤ◌ ◌-ℤ◌
wait_fits = omega arith

retry_after_lem_example :
    ((allowed_after slow spent_bucket 0 (told slow spent_bucket 0) ≡ true)
      ↔ (missing slow (refill slow spent_bucket 0) ≤ told slow spent_bucket 0 * 1))
    × (allowed_after slow spent_bucket 0 (told slow spent_bucket 0 + second) ≡ true)
retry_after_lem_example =
    retry_after_lem slow spent_bucket 0 (omega arith) (omega arith) wait_fits denied_first

denied_again : allowed_after slow spent_bucket 0 (told slow spent_bucket 0) ≡ false
unfolding decide refill wait_time ◌+ℤ◌ ◌-ℤ◌
denied_again = refl

-- A rate so small that the wait does not fit an int64: what the client is told is not enough.
abbrev tiny : RateLimiter
tiny = record { token = 40000000000000000000; rate = 1; burst = 40000000000000000000; buckets = [] }

denied_tiny : allowed_after tiny spent_bucket 0 (told tiny spent_bucket 0 + second) ≡ false
unfolding decide refill wait_time ◌+ℤ◌ ◌-ℤ◌
denied_tiny = refl
