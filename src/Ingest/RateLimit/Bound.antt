-- ===== src/Ingest/RateLimit/Bound.antt =====
-- One call of the limiter: the bounds of its bucket, and what it takes.
use serverless_error_ingest.Base.Int.{pos_part, neg_part, ◌+ℤ◌, ◌-ℤ◌, ltb_ℤ, +ℤ_parts, -ℤ_parts}
use serverless_error_ingest.Ingest.RateLimit.{TokenBucket, RateLimiter, gained, refill, decide}
use serverless_error_ingest.Base.{
  ℕ, ◌+◌, ◌*◌, ◌≤◌, ◌≡◌, refl, ◌⊎◌, inl, inr, Bool, true, false, arith, ltb→lt, Bool-cases, ℤ, pos,
  negsuc,
}

-- A bucket holds between 0 and `burst` units.
pub record IsFilled (rl : RateLimiter) (b : TokenBucket) : Type 0 where
  pub not_negative : neg_part b.tokens ≡ 0
  pub at_most : pos_part b.tokens ≤ rl.burst

pub gained_parts :
    (rate last now : ℕ)
    → pos_part (gained rate last now) + last * rate ≡ neg_part (gained rate last now) + now * rate
gained_parts rate last now = ground arith

pub one_part : (t : ℤ) → (neg_part t ≡ 0) ⊎ (pos_part t ≡ 0)
one_part (pos n) = inl refl
one_part (negsuc n) = inr refl

-- A refill stays within the bounds, and adds no more than the time allows.
record Refilled (rl : RateLimiter) (b : TokenBucket) (now : ℕ) (t : ℤ) : Type 0 where
  not_negative : neg_part t ≡ 0
  at_most : pos_part t ≤ rl.burst
  gain : pos_part t + b.last * rl.rate ≤ pos_part b.tokens + now * rl.rate

refill-Refilled :
    (rl : RateLimiter) (b : TokenBucket) (now : ℕ)
    → IsFilled rl b
    → b.last ≤ now
    → Refilled rl b now (refill rl b now)
unfolding refill
refill-Refilled rl b now v le =
    let mono : b.last * rl.rate ≤ now * rl.rate = grind arith in
    let g = gained rl.rate b.last now in
    let t = b.tokens +ℤ g in
    let sum = +ℤ_parts b.tokens g in
    let one = one_part t in
    let one' = one_part g in
    let parts = gained_parts rl.rate b.last now in
    elim (Bool-cases (ltb_ℤ (pos rl.burst) t)) [
      | inl over ↦ rw over (record {
        not_negative = refl;
        at_most = omega arith;
        gain = omega (arith, v.not_negative, ltb→lt _ _ over);
      })
      | inr within ↦ rw within (record {
        not_negative = omega (arith, v.not_negative);
        at_most =
            let h : pos_part t + 0 ≤ rl.burst + neg_part t = ground arith in
            omega (arith, v.not_negative);
        gain = omega (arith, v.not_negative);
      })
    ]

-- Each call keeps the bucket within its bounds.
pub decide-IsFilled :
    (rl : RateLimiter) (b : TokenBucket) (now : ℕ)
    → IsFilled rl b
    → b.last ≤ now
    → IsFilled rl (decide rl b now).bucket
unfolding decide
decide-IsFilled rl b now v le =
    let r = refill-Refilled rl b now v le in
    let t = refill rl b now in
    let less = -ℤ_parts t (pos rl.token) in
    let one = one_part (t -ℤ pos rl.token) in
    elim (Bool-cases (ltb_ℤ t (pos rl.token))) [
      | inl no_ ↦ rw no_ (record { not_negative = r.not_negative; at_most = r.at_most })
      | inr yes_ ↦
          let enough : rl.token + neg_part t ≤ pos_part t + 0 = ground arith in
          rw yes_ (record {
            not_negative = omega (arith, r.not_negative);
            at_most = omega (arith, r.not_negative, r.at_most);
          })
    ]

abbrev pub cost : RateLimiter → Bool → ℕ
cost rl true = rl.token
cost rl false = 0

-- What a call takes and leaves is no more than what was there and what came in since.
pub decide-spent :
    (rl : RateLimiter) (b : TokenBucket) (now : ℕ)
    → IsFilled rl b
    → b.last ≤ now
    → pos_part (decide rl b now).bucket.tokens
        + cost rl (decide rl b now).allowed
        + b.last * rl.rate
      ≤ pos_part b.tokens + now * rl.rate
unfolding decide
decide-spent rl b now v le =
    let r = refill-Refilled rl b now v le in
    let t = refill rl b now in
    let less = -ℤ_parts t (pos rl.token) in
    let one = one_part (t -ℤ pos rl.token) in
    elim (Bool-cases (ltb_ℤ t (pos rl.token))) [
      | inl no_ ↦ rw no_ (omega (arith, r.gain))
      | inr yes_ ↦
          let enough : rl.token + neg_part t ≤ pos_part t + 0 = ground arith in
          rw yes_ (omega (arith, r.not_negative, r.gain))
    ]
