-- ===== src/Ingest/Lambda/Limited.antt =====
-- The rate limiter under the handler: the requests that one process answers.
use serverless_error_ingest.Http.{Request, Response}
use serverless_error_ingest.Ingest.Persist.{Faults, Store}
use serverless_error_ingest.Ingest.Respond.{respond_rate_limited}
use serverless_error_ingest.Ingest.RateLimit.{RateLimiter, new_rate_limiter, allow}
use serverless_error_ingest.Ingest.RateLimit.Run.{passed, IsOrdered, passed-le}
use serverless_error_ingest.Ingest.Handler.{
  Service, World, Admission, Content, admit, content_of, keep, take_turn, after_turn, after_admit,
  handle_request,
}
use serverless_error_ingest.Ingest.Handler.Answers.{
  OnErr, respond_rate_limited-IsRefusal, admit-OnErr,
}
use serverless_error_ingest.Base.{
  ℕ, suc, ◌+◌, ◌*◌, ◌≤◌, ◌≡◌, refl, Bool, true, false, ◌&&◌, Option, none, some, List, [], ◌∷◌,
  arith, ◌==◌, if◌then◌else◌, Bytes, equal, Result, ok, err,
}

-- A request, the time it comes at, and the calls of the stores that fail meanwhile.
pub record Arrival : Type 0 where
  pub faults : Faults
  pub now : ℕ
  pub req : Request

-- The requests come at times that do not decrease, between two given ones.
abbrev pub IsTimely : ℕ → List Arrival → ℕ → Type 0
IsTimely start [] end = start ≤ end
IsTimely start (a ∷ later) end = (start ≤ a.now) × IsTimely a.now later end

abbrev is_for : Bytes → Result Response Admission → Bool
is_for key (err r) = false
is_for key (ok a) = equal a.key key

module _ (service : Service) where
  -- How many requests that carry the key are answered with status 200, one after the other.
  unfoldable pub answered : Bytes → World → List Arrival → ℕ
  unfolding equal
  answered key w [] = 0
  answered key w (a ∷ arrivals) =
      let out = handle_request service a.faults a.now a.req w in
      let later = answered key out.1 arrivals in
      if is_for key (admit service a.req) && out.0.status == 200 then suc later else later

  abbrev add_call : Result Response Admission → ℕ → List (Bytes × ℕ) → List (Bytes × ℕ)
  add_call (err r) now calls = calls
  add_call (ok a) now calls = (a.key, now) ∷ calls

  -- The calls of the limiter.
  calls_of : List Arrival → List (Bytes × ℕ)
  calls_of [] = []
  calls_of (a ∷ arrivals) = add_call (admit service a.req) a.now (calls_of arrivals)

  IsOrdered-sooner :
      (soon start end : ℕ) (calls : List (Bytes × ℕ))
      → soon ≤ start
      → IsOrdered start calls end
      → IsOrdered soon calls end
  IsOrdered-sooner soon start end [] le o = omega arith
  IsOrdered-sooner soon start end ((j, now) ∷ calls) le (at, o) = (omega arith, o)

  add_call-IsOrdered :
      (r : Result Response Admission) (start now end : ℕ) (calls : List (Bytes × ℕ))
      → start ≤ now
      → IsOrdered now calls end
      → IsOrdered start (add_call r now calls) end
  add_call-IsOrdered (err r) start now end calls le o = IsOrdered-sooner start now end calls le o
  add_call-IsOrdered (ok a) start now end calls le o = (le, o)

  calls_of-IsOrdered :
      (start end : ℕ) (arrivals : List Arrival)
      → IsTimely start arrivals end
      → IsOrdered start (calls_of arrivals) end
  unfolding calls_of
  calls_of-IsOrdered start end [] h = h
  calls_of-IsOrdered start end (a ∷ arrivals) (le, h) =
      add_call-IsOrdered (admit service a.req) start a.now end (calls_of arrivals) le
        (calls_of-IsOrdered a.now end arrivals h)

  keep-limiter :
      (faults : Faults) (now : ℕ) (a : Admission) (w : World) (r : Result Response Content)
      → (keep service faults now a w r).1.limiter ≡ w.limiter
  unfolding keep
  keep-limiter faults now a w (err r) = refl
  keep-limiter faults now a w (ok c) = refl

  after_turn-limiter :
      (faults : Faults) (now : ℕ) (req : Request) (a : Admission) (w : World) (wait : Option ℕ)
      → (after_turn service faults now req a w wait).1.limiter ≡ w.limiter
  unfolding after_turn
  after_turn-limiter faults now req a w (some wait) = refl
  after_turn-limiter faults now req a w none =
      keep-limiter faults now a w (content_of service req a.body)

  -- A request that is admitted takes its turn; one that is denied is not answered with status 200.
  record Turn (a : Admission) (now : ℕ) (rl : RateLimiter) (out : Response × World) : Type 0 where
    limiter : out.1.limiter ≡ some (allow rl a.key now).1
    denied : (allow rl a.key now).0.allowed ≡ false → (out.0.status == 200) ≡ false

  after_admit-Turn :
      (faults : Faults) (now : ℕ) (req : Request) (a : Admission) (w : World) (rl : RateLimiter)
      → w.limiter ≡ some rl
      → Turn a now rl (after_admit service faults now req w (ok a))
  unfolding after_admit take_turn after_turn respond_rate_limited
  after_admit-Turn faults now req a w rl same = rw same (record {
    limiter =
        after_turn-limiter faults now req a (record w { limiter = some (allow rl a.key now).1 })
          (if (allow rl a.key now).0.allowed
            then none
            else some (allow rl a.key now).0.retry_after);
    denied = λ no_.
        rw no_
          (respond_rate_limited-IsRefusal service.setup.json
            (allow rl a.key now).0.retry_after).refuses;
  })

  answered_step :
      (for allowed good : Bool) (n m : ℕ)
      → n ≤ m
      → (allowed ≡ false → good ≡ false)
      → (if for && good then suc n else n) ≤ (if for && allowed then suc m else m)
  answered_step false allowed good n m le denied = le
  answered_step true true true n m le denied = omega arith
  answered_step true true false n m le denied = omega arith
  answered_step true false true n m le denied = cc (denied refl)
  answered_step true false false n m le denied = le

  -- The answers of one request and the ones behind it, against the calls of the limiter.
  answered_after :
      (key : Bytes) (a : Arrival) (later : World → ℕ) (calls : List (Bytes × ℕ)) (w : World)
      (rl : RateLimiter) (r : Result Response Admission)
      → w.limiter ≡ some rl
      → OnErr r
      → ((v : World) (rl' : RateLimiter) → v.limiter ≡ some rl' → later v ≤ passed key rl' calls)
      → (let out = after_admit service a.faults a.now a.req w r in
          if is_for key r && out.0.status == 200 then suc (later out.1) else later out.1)
        ≤ passed key rl (add_call r a.now calls)
  unfolding passed after_admit
  answered_after key a later calls w rl (err r) same refuses ih = ih w rl same
  answered_after key a later calls w rl (ok adm) same refuses ih =
      let t = after_admit-Turn a.faults a.now a.req adm w rl same in
      let out = after_admit service a.faults a.now a.req w (ok adm) in
      answered_step (equal adm.key key) (allow rl adm.key a.now).0.allowed (out.0.status == 200)
        (later out.1) (passed key (allow rl adm.key a.now).1 calls)
        (ih out.1 (allow rl adm.key a.now).1 t.limiter) t.denied

  answered-le-passed :
      (key : Bytes) (arrivals : List Arrival) (w : World) (rl : RateLimiter)
      → w.limiter ≡ some rl
      → answered key w arrivals ≤ passed key rl (calls_of arrivals)
  unfolding answered passed calls_of handle_request
  answered-le-passed key [] w rl same = omega arith
  answered-le-passed key (a ∷ arrivals) w rl same =
      answered_after key a (λ v. answered key v arrivals) (calls_of arrivals) w rl
        (admit service a.req) same (admit-OnErr service a.req)
        (λ v rl' h. answered-le-passed key arrivals v rl' h)

  -- Whatever requests come to a process with a new limiter, at times that do not decrease, whatever the
  -- stores hold and whatever calls of them fail: the requests with one key that are answered with status
  -- 200 cost no more than a full bucket and what the refill brings in between the start and the end.
  pub answered-le :
      (token rate burst start end : ℕ) (key : Bytes) (arrivals : List Arrival) (st : Store)
      → IsTimely start arrivals end
      → answered key
              (record { store = st; limiter = some (new_rate_limiter token rate burst) })
              arrivals
            * token
          + start * rate
        ≤ burst + end * rate
  answered-le token rate burst start end key arrivals st timely =
      let rl = new_rate_limiter token rate burst in
      let w : World = record { store = st; limiter = some rl } in
      let fewer = answered-le-passed key arrivals w rl refl in
      let most =
        passed-le token rate burst start end key (calls_of arrivals)
          (calls_of-IsOrdered start end arrivals timely) in
      let cost : answered key w arrivals * token ≤ passed key rl (calls_of arrivals) * token =
        grind arith in
      omega (arith, cost, most)
