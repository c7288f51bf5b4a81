-- ===== src/Ingest/RateLimit/Separate.antt =====
-- The limiter against its specification: a bucket of its own for every key.
use serverless_error_ingest.Http.{lookup}
use serverless_error_ingest.Ingest.RateLimit.{
  TokenBucket, RateLimiter, new_rate_limiter, Decision, refill, wait_time, decide, bucket_or_full,
  bucket_of, allow,
}
use serverless_error_ingest.Base.{
  ℕ, ◌≡◌, refl, ap, ◌∙◌, inl, inr, true, false, Option, none, some, List, [], ◌∷◌, if◌then◌else◌,
  Bool-cases, Bytes, equal, equal_iff,
}

-- What the calls for the key are answered, in their order.
unfoldable pub decisions : Bytes → RateLimiter → List (Bytes × ℕ) → List Decision
unfolding allow equal
decisions k rl [] = []
decisions k rl ((j, now) ∷ calls) =
    let (d, rl') = allow rl j now in
    let later = decisions k rl' calls in if equal j k then d ∷ later else later

-- The times of the calls for the key.
unfoldable pub times_of : Bytes → List (Bytes × ℕ) → List ℕ
unfolding equal
times_of k [] = []
times_of k ((j, now) ∷ calls) =
    let later = times_of k calls in if equal j k then now ∷ later else later

-- One bucket, called at these times; none before its first call.
unfoldable pub one_bucket : RateLimiter → Option TokenBucket → List ℕ → List Decision
unfolding decide
one_bucket rl b [] = []
one_bucket rl b (now ∷ times) =
    let d = decide rl (bucket_or_full rl.burst now b) now in d ∷ one_bucket rl (some d.bucket) times

module _ (k : Bytes) (rl : RateLimiter) where
  lookup-same :
      (j : Bytes) (b : TokenBucket) (buckets : List (Bytes × TokenBucket))
      → equal j k ≡ true
      → lookup k ((j, b) ∷ buckets) ≡ some b
  unfolding lookup
  lookup-same j b buckets e = rw e refl

  lookup-other :
      (j : Bytes) (b : TokenBucket) (buckets : List (Bytes × TokenBucket))
      → equal j k ≡ false
      → lookup k ((j, b) ∷ buckets) ≡ lookup k buckets
  unfolding lookup
  lookup-other j b buckets e = rw e refl

  decide-buckets :
      (buckets : List (Bytes × TokenBucket)) (b : TokenBucket) (now : ℕ)
      → decide (record rl { buckets = buckets }) b now ≡ decide rl b now
  unfolding decide refill wait_time
  decide-buckets buckets b now = refl

  decisions-from :
      (buckets : List (Bytes × TokenBucket)) (calls : List (Bytes × ℕ))
      → decisions k (record rl { buckets = buckets }) calls
        ≡ one_bucket rl (lookup k buckets) (times_of k calls)
  unfolding decisions times_of one_bucket allow bucket_of
  decisions-from buckets [] = refl
  decisions-from buckets ((j, now) ∷ calls) =
      let d = decide rl (bucket_or_full rl.burst now (lookup j buckets)) now in
      let rest = decisions-from ((j, d.bucket) ∷ buckets) calls in
      let times = times_of k calls in
      rw (decide-buckets buckets (bucket_or_full rl.burst now (lookup j buckets)) now)
        (elim (Bool-cases (equal j k)) [
          | inl own ↦ rw own (
              ap (λ later. d ∷ later)
                (rest ∙ ap (λ b. one_bucket rl b times) (lookup-same j d.bucket buckets own))
              ∙ ap (λ j. one_bucket rl (lookup j buckets) (now ∷ times)) ((equal_iff j k).0 own))
          | inr other ↦
              rw other
                (rest ∙ ap (λ b. one_bucket rl b times) (lookup-other j d.bucket buckets other))
        ])

-- The limiter keeps its keys apart: whatever calls for other keys come in between and at whatever times,
-- each key's calls are answered, waiting times included, as by one bucket of its own that sees only these
-- calls.
pub decisions-one_bucket :
    (token rate burst : ℕ) (k : Bytes) (calls : List (Bytes × ℕ))
    → decisions k (new_rate_limiter token rate burst) calls
      ≡ one_bucket (new_rate_limiter token rate burst) none (times_of k calls)
unfolding new_rate_limiter lookup
decisions-one_bucket token rate burst k calls =
    decisions-from k (new_rate_limiter token rate burst) [] calls
