-- ===== src/Ingest/RateLimit.antt =====
-- The token bucket of lambda/ingest/ratelimit.go, in exact arithmetic: a token is `token` units, times
-- are nanoseconds, and a bucket gains `rate` units in each of them. The floats of the source are these
-- numbers up to rounding.
pub mod Bound
pub mod Run
pub mod Separate
pub mod Wait
use serverless_error_ingest.Base.Int.{sub_ℕ, ◌+ℤ◌, ◌-ℤ◌, ltb_ℤ, pos_part}
use serverless_error_ingest.Http.{lookup}
use serverless_error_ingest.Base.{
  ℕ, ◌*◌, ◌/◌, Bool, true, false, Option, none, some, List, [], ◌∷◌, ltb, ◌==◌, if◌then◌else◌,
  Bytes, ℤ, pos,
}

-- `tokenBucket`
pub record TokenBucket : Type 0 where
  pub tokens : ℤ
  pub last : ℕ

-- `rateLimiter`; `burst` is in units.
pub record RateLimiter : Type 0 where
  pub token : ℕ
  pub rate : ℕ
  pub burst : ℕ
  pub buckets : List (Bytes × TokenBucket)

abbrev pub second : ℕ
second = 1000000000

-- `newRateLimiter`
unfoldable pub new_rate_limiter : ℕ → ℕ → ℕ → RateLimiter
new_rate_limiter token rate burst = record {
  token = token;
  rate = rate;
  burst = burst;
  buckets = [];
}

-- `elapsed * rl.rate` between two times, below 0 where the clock went back.
abbrev pub gained : ℕ → ℕ → ℕ → ℤ
gained rate last now = sub_ℕ (now * rate) (last * rate)

-- The refill: `b.tokens += elapsed * rl.rate`, cut at the burst.
unfoldable pub refill : RateLimiter → TokenBucket → ℕ → ℤ
refill rl b now =
    let t = b.tokens +ℤ gained rl.rate b.last now in
    if ltb_ℤ (pos rl.burst) t then pos rl.burst else t

-- The largest `time.Duration`, which is an int64.
abbrev pub max_duration : ℕ
max_duration = 9223372036854775807

-- `time.Duration(f)` of a float that is not negative. Where it does not fit, Go leaves the result to the
-- machine: on arm64, which the lambdas are built for, it is the largest int64.
abbrev pub to_duration : ℕ → ℕ
to_duration w = if ltb w max_duration then w else max_duration

-- `time.Duration(waitSec * float64(time.Second))`, with at least one second; a rate of 0 divides to an
-- infinite float.
unfoldable pub wait_time : RateLimiter → ℤ → ℕ
wait_time rl tokens =
    let wait = pos_part (pos rl.token -ℤ tokens) / rl.rate in
    if rl.rate == 0 then max_duration else (if ltb wait second then second else to_duration wait)

-- What a call does to its bucket: whether it is allowed, the time to wait, and the bucket.
pub record Decision : Type 0 where
  pub allowed : Bool
  pub retry_after : ℕ
  pub bucket : TokenBucket

unfoldable pub decide : RateLimiter → TokenBucket → ℕ → Decision
decide rl b now =
    let t = refill rl b now in
    if ltb_ℤ t (pos rl.token)
    then record {
      allowed = false;
      retry_after = wait_time rl t;
      bucket = record { tokens = t; last = now };
    }
    else record {
      allowed = true;
      retry_after = 0;
      bucket = record { tokens = t -ℤ pos rl.token; last = now };
    }

-- `if !ok { b = &tokenBucket{tokens: rl.burst, last: now} }`
abbrev pub bucket_or_full : ℕ → ℕ → Option TokenBucket → TokenBucket
bucket_or_full burst now (some b) = b
bucket_or_full burst now none = record { tokens = pos burst; last = now }

-- The bucket of a key, full where the key is new.
unfoldable pub bucket_of : RateLimiter → Bytes → ℕ → TokenBucket
unfolding lookup
bucket_of rl key now = bucket_or_full rl.burst now (lookup key rl.buckets)

-- `Allow`
unfoldable pub allow : RateLimiter → Bytes → ℕ → Decision × RateLimiter
allow rl key now =
    let d = decide rl (bucket_of rl key now) now in
    (d, record rl { buckets = (key, d.bucket) ∷ rl.buckets })
