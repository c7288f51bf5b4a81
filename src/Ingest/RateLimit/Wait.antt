-- ===== src/Ingest/RateLimit/Wait.antt =====
-- A client that waits after a denied call.
use mathlib.Core.Path.{subst}
use native.Mathlib.Nat.{div-add-mod, mod-lt}
use serverless_error_ingest.Base.Int.{pos_part, neg_part, ◌+ℤ◌, ◌-ℤ◌, ltb_ℤ, +ℤ_parts, -ℤ_parts}
use serverless_error_ingest.Ingest.RateLimit.{
  TokenBucket, RateLimiter, second, max_duration, gained, refill, wait_time, Decision, decide,
}
use serverless_error_ingest.Ingest.RateLimit.Bound.{gained_parts, one_part}
use serverless_error_ingest.Base.{
  ℕ, ◌+◌, ◌*◌, ◌/◌, ◌≤◌, ◌<◌, ◌≡◌, refl, sym, ◌↔◌, inl, inr, Bool, true, false, arith, ltb→lt,
  Bool-cases, true-ne-false, ℤ, pos,
}

-- What is missing of a token, in units.
abbrev pub missing : RateLimiter → ℤ → ℕ
missing rl t = pos_part (pos rl.token -ℤ t)

module _ (rl : RateLimiter) (t : ℤ) (now k : ℕ) (room : rl.token ≤ rl.burst) where
  abbrev waiting : TokenBucket
  waiting = record { tokens = t; last = now }

  -- Whether the units that come in meanwhile are enough.
  later_allowed :
      ((decide rl waiting (now + k)).allowed ≡ true)
      ↔ (rl.token + neg_part t ≤ pos_part t + k * rl.rate)
  unfolding decide refill
  later_allowed =
      let g = gained rl.rate now (now + k) in
      let u = t +ℤ g in
      let parts = gained_parts rl.rate now (now + k) in
      let split : (now + k) * rl.rate ≡ now * rl.rate + k * rl.rate = grind arith in
      let one = one_part g in
      let sum = +ℤ_parts t g in
      elim (Bool-cases (ltb_ℤ (pos rl.burst) u)) [
        | inl over ↦
            let more = ltb→lt (rl.burst + neg_part u) (pos_part u + 0) over in
            let full : ltb_ℤ (pos rl.burst) (pos rl.token) ≡ false = ground arith in
            rw (over, full) (λ h. omega arith, λ h. refl)
        | inr within ↦ elim (Bool-cases (ltb_ℤ u (pos rl.token))) [
          | inl few ↦
              let less = ltb→lt (pos_part u + 0) (rl.token + neg_part u) few in
              rw (within, few) (λ h. cc, λ h. absurd (omega arith))
          | inr enough ↦
              let reached : rl.token + neg_part u ≤ pos_part u + 0 = ground arith in
              rw (within, enough) (λ h. omega arith, λ h. refl)
        ]
      ]

mul_mono : (a b c : ℕ) → a ≤ b → a * c ≤ b * c
mul_mono a b c h = grind arith

-- A quotient is rounded down by less than the divisor.
lt-div : (a b : ℕ) → 0 < b → a < (a / b + 1) * b
lt-div a b h = let whole = div-add-mod a b in let rest = mod-lt a h in grind arith

module _ (rl : RateLimiter) (t : ℤ) (few : pos_part t < rl.token + neg_part t) where
  missing_lem : missing rl t + pos_part t ≡ rl.token + neg_part t
  missing_lem =
      let parts = -ℤ_parts (pos rl.token) t in let one = one_part (pos rl.token -ℤ t) in omega arith

  -- The seconds that a client is told, and one more, bring in what is missing.
  told_suffices :
      0 < rl.rate
      → missing rl t / rl.rate < max_duration
      → missing rl t ≤ (wait_time rl t / second * second + second) * rl.rate
  unfolding wait_time
  told_suffices pace fits =
      let q = missing rl t / rl.rate in
      let less = lt-div (missing rl t) rl.rate pace in
      let w = wait_time rl t in
      let longer : q + 1 ≤ w / second * second + second = ground arith in
      let scaled : (q + 1) * rl.rate ≤ (w / second * second + second) * rl.rate =
        mul_mono (q + 1) (w / second * second + second) rl.rate longer in
      omega arith

-- The whole seconds that a denied client is told, in nanoseconds.
abbrev pub told : RateLimiter → TokenBucket → ℕ → ℕ
told rl b now = (decide rl b now).retry_after / second * second

-- Whether a call is let in that comes `k` nanoseconds after the one at `now`.
abbrev pub allowed_after : RateLimiter → TokenBucket → ℕ → ℕ → Bool
allowed_after rl b now k = (decide rl (decide rl b now).bucket (now + k)).allowed

abbrev denial : RateLimiter → ℤ → ℕ → Decision
denial rl t now = record {
  allowed = false;
  retry_after = wait_time rl t;
  bucket = record { tokens = t; last = now };
}

-- A denied call leaves its bucket refilled.
record IsDenied (rl : RateLimiter) (b : TokenBucket) (now : ℕ) : Type 0 where
  few : pos_part (refill rl b now) < rl.token + neg_part (refill rl b now)
  same : decide rl b now ≡ denial rl (refill rl b now) now

decide-IsDenied :
    (rl : RateLimiter) (b : TokenBucket) (now : ℕ)
    → (decide rl b now).allowed ≡ false
    → IsDenied rl b now
unfolding decide
decide-IsDenied rl b now denied =
    let t = refill rl b now in
    elim (Bool-cases (ltb_ℤ t (pos rl.token))) [
      | inl less ↦
          let short = ltb→lt (pos_part t + 0) (rl.token + neg_part t) less in
          record { few = omega arith; same = rw less refl }
      | inr enough ↦ absurd (true-ne-false (rw enough at denied))
    ]

-- What a client meets that waits as a decision tells.
abbrev Waits : RateLimiter → ℤ → ℕ → Decision → Type 0
Waits rl t now d =
    (((decide rl d.bucket (now + d.retry_after / second * second)).allowed ≡ true)
      ↔ (missing rl t ≤ d.retry_after / second * second * rl.rate))
    × ((decide rl d.bucket (now + (d.retry_after / second * second + second))).allowed ≡ true)

-- After a denied call of a limiter with a positive rate and a burst of a token at least, where the wait
-- for a token is below 2 ^ 63 - 1 nanoseconds, with no other call for the key in between: a client that
-- waits the whole seconds that it is told is let in exactly where these bring in all that is missing of a
-- token, and one that waits a second more is let in.
pub retry_after_lem :
    (rl : RateLimiter) (b : TokenBucket) (now : ℕ)
    → 0 < rl.rate
    → rl.token ≤ rl.burst
    → missing rl (refill rl b now) / rl.rate < max_duration
    → (decide rl b now).allowed ≡ false
    → ((allowed_after rl b now (told rl b now) ≡ true)
        ↔ (missing rl (refill rl b now) ≤ told rl b now * rl.rate))
      × (allowed_after rl b now (told rl b now + second) ≡ true)
retry_after_lem rl b now pace room fits denied =
    let t = refill rl b now in
    let d = decide-IsDenied rl b now denied in
    let lack = missing_lem rl t d.few in
    let after = λ (k : ℕ). later_allowed rl t now k room in
    let enough = told_suffices rl t d.few pace fits in
    subst (Waits rl t now) (sym d.same) (
      (
        λ h. omega (arith, (after (wait_time rl t / second * second)).0 h, lack),
        λ h. (after (wait_time rl t / second * second)).1 (omega (arith, lack, h)),
      ),
      (after (wait_time rl t / second * second + second)).1 (omega (arith, lack, enough)),
    )
