-- ===== src/Ingest/RateLimit/Run.antt =====
-- A sequence of calls of the limiter, for several keys, in the order in which its mutex lets them in.
use mathlib.Core.Path.{subst}
use serverless_error_ingest.Base.Int.{pos_part, ltb_ℤ}
use serverless_error_ingest.Http.{lookup}
use serverless_error_ingest.Ingest.RateLimit.{
  TokenBucket, RateLimiter, new_rate_limiter, refill, decide, bucket_or_full, bucket_of, allow,
}
use serverless_error_ingest.Ingest.RateLimit.Bound.{IsFilled, decide-IsFilled, decide-spent, cost}
use serverless_error_ingest.Base.{
  ℕ, suc, ◌+◌, ◌*◌, ◌≤◌, ◌≡◌, refl, sym, ap, ◌∙◌, inl, inr, true, false, ◌&&◌, Option, none, some,
  List, [], ◌∷◌, arith, if◌then◌else◌, Bool-cases, Bytes, equal, equal_iff, pos,
}

-- The number of calls for the key `k` that are let through.
unfoldable pub passed : Bytes → RateLimiter → List (Bytes × ℕ) → ℕ
unfolding allow equal
passed k rl [] = 0
passed k rl ((j, now) ∷ calls) =
    let (d, rl') = allow rl j now in
    let later = passed k rl' calls in if equal j k && d.allowed then suc later else later

-- The calls come at times that do not decrease, between two given ones.
abbrev pub IsOrdered : ℕ → List (Bytes × ℕ) → ℕ → Type 0
IsOrdered start [] end = start ≤ end
IsOrdered start ((j, now) ∷ calls) end = (start ≤ now) × IsOrdered now calls end

-- The bucket of a key at a time and at a later one, with no call for the key in between.
record Later (b b' : TokenBucket) (now : ℕ) : Type 0 where
  same_tokens : b'.tokens ≡ b.tokens
  last_le : b.last ≤ b'.last
  last_at_most : b'.last ≤ now

bucket_or_full-Later :
    (burst now t : ℕ) (found : Option TokenBucket)
    → now ≤ t
    → (bucket_or_full burst now found).last ≤ now
    → Later (bucket_or_full burst now found) (bucket_or_full burst t found) t
bucket_or_full-Later burst now t none le h = record {
  same_tokens = refl;
  last_le = le;
  last_at_most = omega arith;
}
bucket_or_full-Later burst now t (some b) le h = record {
  same_tokens = refl;
  last_le = omega arith;
  last_at_most = omega arith;
}

bucket_of-Later :
    (rl : RateLimiter) (k : Bytes) (now t : ℕ)
    → now ≤ t
    → (bucket_of rl k now).last ≤ now
    → Later (bucket_of rl k now) (bucket_of rl k t) t
unfolding bucket_of
bucket_of-Later rl k now t le h = bucket_or_full-Later rl.burst now t (lookup k rl.buckets) le h

-- After a call the key's own bucket is the one decided on; another key's is as before.
bucket_of-allow-same :
    (rl : RateLimiter) (j k : Bytes) (now : ℕ)
    → equal j k ≡ true
    → bucket_of (allow rl j now).1 k now ≡ (decide rl (bucket_of rl j now) now).bucket
unfolding allow bucket_of lookup
bucket_of-allow-same rl j k now e = rw e refl

pub bucket_of-allow-other :
    (rl : RateLimiter) (j k : Bytes) (now t : ℕ)
    → equal j k ≡ false
    → bucket_of (allow rl j now).1 k t ≡ bucket_of rl k t
unfolding allow bucket_of lookup
bucket_of-allow-other rl j k now t e = rw e refl

-- What the calls for a key take is covered by its bucket and by what comes in meanwhile.
abbrev Covered : Bytes → RateLimiter → TokenBucket → List (Bytes × ℕ) → ℕ → Type 0
Covered k rl b calls end =
    passed k rl calls * rl.token + b.last * rl.rate ≤ pos_part b.tokens + end * rl.rate

IsFilled-move :
    (rl rl' : RateLimiter) (b b' : TokenBucket)
    → rl'.burst ≡ rl.burst
    → b'.tokens ≡ b.tokens
    → IsFilled rl b
    → IsFilled rl' b'
IsFilled-move rl rl' b b' same e v = record {
  not_negative = rw e v.not_negative;
  at_most = rw (e, same) v.at_most;
}

decide-last : (rl : RateLimiter) (b : TokenBucket) (now : ℕ) → (decide rl b now).bucket.last ≡ now
unfolding decide
decide-last rl b now = elim (Bool-cases (ltb_ℤ (refill rl b now) (pos rl.token))) [
  | inl few ↦ rw few refl
  | inr enough ↦ rw enough refl
]

-- One call for the key, and the ones behind it.
covered_step :
    (rl : RateLimiter) (c : TokenBucket) (now n end : ℕ)
    → IsFilled rl c
    → c.last ≤ now
    → n * rl.token + (decide rl c now).bucket.last * rl.rate
      ≤ pos_part (decide rl c now).bucket.tokens + end * rl.rate
    → (if (decide rl c now).allowed then suc n else n) * rl.token + c.last * rl.rate
      ≤ pos_part c.tokens + end * rl.rate
covered_step rl c now n end w le rest =
    let d = decide rl c now in
    let spent = decide-spent rl c now w le in
    let at_now : d.bucket.last * rl.rate ≡ now * rl.rate =
      ap (λ n. n * rl.rate) (decide-last rl c now) in
    elim (Bool-cases d.allowed) [
      | inl e ↦
          let spent' : pos_part d.bucket.tokens + rl.token + c.last * rl.rate
              ≤ pos_part c.tokens + now * rl.rate =
            subst
              (λ a.
                pos_part d.bucket.tokens + cost rl a + c.last * rl.rate
                ≤ pos_part c.tokens + now * rl.rate)
              e spent in
          rw e (grind arith)
      | inr ne ↦ rw ne (omega arith)
    ]

covered :
    (k : Bytes) (rl : RateLimiter) (start : ℕ) (calls : List (Bytes × ℕ)) (end : ℕ)
    → IsFilled rl (bucket_of rl k start)
    → (bucket_of rl k start).last ≤ start
    → IsOrdered start calls end
    → Covered k rl (bucket_of rl k start) calls end
unfolding passed allow
covered k rl start [] end v h o =
    let mono : (bucket_of rl k start).last * rl.rate ≤ end * rl.rate = grind arith in omega arith
covered k rl start ((j, now) ∷ calls) end v h (le, o) =
    let rl' = (allow rl j now).1 in
    let b = bucket_of rl k start in
    let c = bucket_of rl k now in
    let l = bucket_of-Later rl k start now le h in
    let w = IsFilled-move rl rl b c refl l.same_tokens v in
    let tokens : pos_part c.tokens ≡ pos_part b.tokens = ap pos_part l.same_tokens in
    let mono : b.last * rl.rate ≤ c.last * rl.rate = grind (arith, l.last_le) in
    elim (Bool-cases (equal j k)) [
      | inl e ↦
          let d = decide rl c now in
          let own : bucket_of rl j now ≡ c = ap (λ j. bucket_of rl j now) ((equal_iff j k).0 e) in
          let same : bucket_of rl' k now ≡ d.bucket =
            bucket_of-allow-same rl j k now e ∙ ap (λ b. (decide rl b now).bucket) own in
          let rest =
            covered k rl' now calls end
              (subst (λ b. IsFilled rl' b) (sym same)
                (IsFilled-move rl rl' d.bucket d.bucket refl refl
                  (decide-IsFilled rl c now w l.last_at_most)))
              (subst (λ b. b.last ≤ now) (sym same) (omega (arith, decide-last rl c now))) o in
          let rest' : Covered k rl' d.bucket calls end =
            subst (λ b. Covered k rl' b calls end) same rest in
          let n = passed k rl' calls in
          let step =
            subst
              (λ b.
                (if (decide rl b now).allowed then suc n else n) * rl.token + c.last * rl.rate
                ≤ pos_part c.tokens + end * rl.rate)
              (sym own) (covered_step rl c now n end w l.last_at_most rest') in
          rw e (omega (arith, step, tokens, mono))
      | inr ne ↦
          let same = bucket_of-allow-other rl j k now now ne in
          let rest =
            covered k rl' now calls end
              (subst (λ b. IsFilled rl' b) (sym same) (IsFilled-move rl rl' c c refl refl w))
              (subst (λ b. b.last ≤ now) (sym same) l.last_at_most) o in
          let rest' : Covered k rl' c calls end =
            subst (λ b. Covered k rl' b calls end) same rest in
          rw ne (omega arith)
    ]

-- Whatever calls come for whatever keys, at times that do not decrease, the calls let through for one
-- key cost no more than a full bucket and what the refill brings in between the start and the end.
pub passed-le :
    (token rate burst start end : ℕ) (key : Bytes) (calls : List (Bytes × ℕ))
    → IsOrdered start calls end
    → passed key (new_rate_limiter token rate burst) calls * token + start * rate
      ≤ burst + end * rate
unfolding new_rate_limiter bucket_of lookup
passed-le token rate burst start end key calls o =
    let rl = new_rate_limiter token rate burst in
    covered key rl start calls end (record { not_negative = refl; at_most = omega arith })
      (omega arith) o
