-- ===== src/Ingest/Handler/Answers.antt =====
-- The responses of the ingest handler, on every path.
use serverless_error_ingest.Http.{Request, Response, lookup}
use serverless_error_ingest.Json.{Json}
use serverless_error_ingest.Ingest.Respond.{
  allow_origin, any_origin, respond_json, respond_id, respond_bad_request, respond_unauthorized,
  respond_forbidden, respond_rate_limited, respond_json_with_headers,
}
use serverless_error_ingest.Ingest.Auth.{AuthInfo, extract_auth_key}
use serverless_error_ingest.Ingest.Project.{project_id_of}
use serverless_error_ingest.Ingest.Registry.{validate_key}
use serverless_error_ingest.Ingest.Compress.{DecompressError, decompress_body}
use serverless_error_ingest.Ingest.Envelope.{Envelope, EnvelopeError, parse_envelope}
use serverless_error_ingest.Ingest.Persist.{Store, Faults}
use serverless_error_ingest.Ingest.Handler.{
  Service, World, Admission, Content, decode_body, is_over, capped, read_body, key_of_auth,
  admission, admit, parsed, unpacked, content_of, after_persist, id_of, persisted, keep, after_turn,
  after_admit, handle_request, is_store_route, content_encoding,
}
use serverless_error_ingest.Base.{
  ℕ, ◌≡◌, refl, inl, inr, Bool, true, false, ◌||◌, Option, none, some, List, ◌==◌, Bool-cases,
  Bytes, equal, is_empty, Result, ok, err, ◌>>=◌,
}

-- The statuses of the wire contract.
abbrev pub is_status : ℕ → Bool
is_status n = n == 200 || n == 400 || n == 401 || n == 403 || n == 429 || n == 500

-- A response that a browser may read, with one of the statuses of the wire contract.
pub record IsAnswer (r : Response) : Type 0 where
  pub cors : lookup allow_origin r.headers ≡ some any_origin
  pub status : is_status r.status ≡ true

-- A response that reports no success.
pub record IsRefusal (r : Response) : Type 0 where
  pub answer : IsAnswer r
  pub refuses : (r.status == 200) ≡ false

abbrev pub OnErr {ℓ} : {A : Type ℓ} → Result Response A → Type 0
OnErr (err r) = IsRefusal r
OnErr (ok a) = Unit

pub bind-OnErr {ℓ} :
    {A B : Type ℓ} (x : Result Response A) (f : A → Result Response B)
    → OnErr x
    → ((a : A) → OnErr (f a))
    → OnErr (x >>= f)
bind-OnErr (ok a) f h g = g a
bind-OnErr (err r) f h g = h

module _ (json : Json) where
  with_headers-IsRefusal :
      (n : ℕ) (m : Bytes) (hs : List (Bytes × Bytes))
      → lookup allow_origin hs ≡ some any_origin
      → is_status n ≡ true
      → (n == 200) ≡ false
      → IsRefusal (respond_json_with_headers json n m hs)
  unfolding respond_json_with_headers
  with_headers-IsRefusal n m hs cors status refuses = record {
    answer = record { cors = cors; status = status };
    refuses = refuses;
  }

  respond_bad_request-IsRefusal : (m : Bytes) → IsRefusal (respond_bad_request json m)
  unfolding respond_bad_request lookup equal
  respond_bad_request-IsRefusal m = with_headers-IsRefusal 400 m _ refl refl refl

  respond_unauthorized-IsRefusal : IsRefusal (respond_unauthorized json)
  unfolding respond_unauthorized lookup equal
  respond_unauthorized-IsRefusal = with_headers-IsRefusal 401 _ _ refl refl refl

  respond_forbidden-IsRefusal : IsRefusal (respond_forbidden json)
  unfolding respond_forbidden lookup equal
  respond_forbidden-IsRefusal = with_headers-IsRefusal 403 _ _ refl refl refl

  pub respond_rate_limited-IsRefusal : (wait : ℕ) → IsRefusal (respond_rate_limited json wait)
  unfolding respond_rate_limited lookup equal
  respond_rate_limited-IsRefusal wait = with_headers-IsRefusal 429 _ _ refl refl refl

  respond_json-IsRefusal : (m : Bytes) → IsRefusal (respond_json json 500 m)
  unfolding respond_json lookup equal
  respond_json-IsRefusal m = record {
    answer = record { cors = refl; status = refl };
    refuses = refl;
  }

  respond_id-IsAnswer : (id : Bytes) → IsAnswer (respond_id json id)
  unfolding respond_id lookup equal
  respond_id-IsAnswer id = record { cors = refl; status = refl }

module _ (service : Service) where
  capped-OnErr : (body : Option Bytes) → OnErr (capped service body)
  capped-OnErr none = respond_bad_request-IsRefusal service.setup.json _
  capped-OnErr (some body) = elim (Bool-cases (is_over service body)) [
    | inl over ↦ rw over (respond_bad_request-IsRefusal service.setup.json _)
    | inr within ↦ rw within (tt {0})
  ]

  read_body-OnErr : (req : Request) → OnErr (read_body service req)
  unfolding read_body
  read_body-OnErr req = capped-OnErr (decode_body service.base64 req)

  key_of_auth-OnErr : (auth : Option AuthInfo) → OnErr (key_of_auth service auth)
  key_of_auth-OnErr none = respond_unauthorized-IsRefusal service.setup.json
  key_of_auth-OnErr (some auth) = elim (Bool-cases auth.present) [
    | inr absent ↦ rw absent (respond_forbidden-IsRefusal service.setup.json)
    | inl there ↦ elim (Bool-cases (is_empty auth.key)) [
      | inl empty ↦ rw (there, empty) (respond_unauthorized-IsRefusal service.setup.json)
      | inr full ↦ rw (there, full) (tt {0})
    ]
  ]

  admission-OnErr : (a : Admission) (v : Result Bytes Bool) → OnErr (admission service a v)
  admission-OnErr a (err e) = respond_json-IsRefusal service.setup.json _
  admission-OnErr a (ok false) = respond_unauthorized-IsRefusal service.setup.json
  admission-OnErr a (ok true) = tt {0}

  pub admit-OnErr : (req : Request) → OnErr (admit service req)
  unfolding admit
  admit-OnErr req = bind-OnErr (read_body service req) _ (read_body-OnErr req) (λ body.
      bind-OnErr (key_of_auth service (extract_auth_key service.setup.json req body)) _
        (key_of_auth-OnErr (extract_auth_key service.setup.json req body))
        (λ key.
          admission-OnErr _
            (validate_key service.get_project (project_id_of service.setup.json req body) key)))

  parsed-OnErr : (body : Bytes) (r : Result EnvelopeError Envelope) → OnErr (parsed service body r)
  parsed-OnErr body (err e) = respond_bad_request-IsRefusal service.setup.json _
  parsed-OnErr body (ok env) = tt {0}

  unpacked-OnErr :
      (route : Bool) (r : Result DecompressError Bytes) → OnErr (unpacked service route r)
  unpacked-OnErr route (err e) = respond_bad_request-IsRefusal service.setup.json _
  unpacked-OnErr true (ok body) = tt {0}
  unpacked-OnErr false (ok body) = parsed-OnErr body (parse_envelope service.setup.json body)

  pub content_of-OnErr : (req : Request) (body : Bytes) → OnErr (content_of service req body)
  unfolding content_of
  content_of-OnErr req body =
      unpacked-OnErr (is_store_route req)
        (decompress_body service.codecs (content_encoding req) body service.setup.max_body_bytes)

  after_persist-IsAnswer :
      (id : Bytes) (w : World) (r : Bool × Store) → IsAnswer (after_persist service id w r).0
  after_persist-IsAnswer id w (true, st) = respond_id-IsAnswer service.setup.json id
  after_persist-IsAnswer id w (false, st) = (respond_json-IsRefusal service.setup.json _).answer

  keep-IsAnswer :
      (faults : Faults) (now : ℕ) (a : Admission) (w : World) (r : Result Response Content)
      → OnErr r
      → IsAnswer (keep service faults now a w r).0
  unfolding keep
  keep-IsAnswer faults now a w (err r) h = h.answer
  keep-IsAnswer faults now a w (ok c) h =
      after_persist-IsAnswer (id_of service c) w (persisted service faults now a c w.store)

  after_turn-IsAnswer :
      (faults : Faults) (now : ℕ) (req : Request) (a : Admission) (w : World) (wait : Option ℕ)
      → IsAnswer (after_turn service faults now req a w wait).0
  unfolding after_turn
  after_turn-IsAnswer faults now req a w (some wait) =
      (respond_rate_limited-IsRefusal service.setup.json wait).answer
  after_turn-IsAnswer faults now req a w none =
      keep-IsAnswer faults now a w _ (content_of-OnErr req a.body)

  after_admit-IsAnswer :
      (faults : Faults) (now : ℕ) (req : Request) (w : World) (r : Result Response Admission)
      → OnErr r
      → IsAnswer (after_admit service faults now req w r).0
  unfolding after_admit
  after_admit-IsAnswer faults now req w (err r) h = h.answer
  after_admit-IsAnswer faults now req w (ok a) h = after_turn-IsAnswer faults now req a _ _

-- Every response, of an error too, lets any origin read it and has one of the statuses of the contract.
pub handle_request-IsAnswer :
    (service : Service) (faults : Faults) (now : ℕ) (req : Request) (w : World)
    → IsAnswer (handle_request service faults now req w).0
unfolding handle_request
handle_request-IsAnswer service faults now req w =
    after_admit-IsAnswer service faults now req w (admit service req) (admit-OnErr service req)
