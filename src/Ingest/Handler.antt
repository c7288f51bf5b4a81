-- ===== src/Ingest/Handler.antt =====
-- `handleRequest` of lambda/ingest/main.go, with what it asks of its dependencies as parameters.
pub mod Answers
pub mod Admitted
pub mod Kept
use serverless_error_ingest.Http.{Request, Response, value_of}
use serverless_error_ingest.Text.{starts_with}
use serverless_error_ingest.Ingest.Auth.{AuthInfo, extract_auth_key}
use serverless_error_ingest.Ingest.Project.{project_id_of}
use serverless_error_ingest.Ingest.Registry.{GetProject, validate_key}
use serverless_error_ingest.Ingest.RateLimit.{RateLimiter, allow}
use serverless_error_ingest.Ingest.Compress.{Codecs, DecompressError, decompress_body}
use serverless_error_ingest.Ingest.Envelope.{Item, Envelope, EnvelopeError, parse_envelope}
use serverless_error_ingest.Ingest.EventId.{event_type, chosen_id}
use serverless_error_ingest.Ingest.Persist.{Store, Faults, Setup, persist}
use serverless_error_ingest.Ingest.Texts.{Quoting, envelope_error_text, decompress_error_text}
use serverless_error_ingest.Ingest.Respond.{
  respond_json, respond_id, respond_bad_request, respond_unauthorized, respond_forbidden,
  respond_rate_limited,
}
use serverless_error_ingest.Base.{
  ℕ, Bool, true, false, not, ◌&&◌, ◌||◌, Option, none, some, List, [], ◌∷◌, ◌++◌, ltb,
  if◌then◌else◌, Bytes, codes, equal, is_empty, is_some, Result, ok, err, ◌>>=◌, length,
}

-- What `handleRequest` uses besides the stores: the decoders, and `%q`.
pub record Service : Type 0 where
  pub setup : Setup
  pub codecs : Codecs
  pub base64 : Bytes → Option Bytes
  pub get_project : GetProject
  pub quoting : Quoting

-- What outlives a request. No limiter is a nil `d.limiter`.
pub record World : Type 0 where
  pub store : Store
  pub limiter : Option RateLimiter

-- `decodeBody`
unfoldable pub decode_body : (Bytes → Option Bytes) → Request → Option Bytes
decode_body base64 req = if req.is_base64 then base64 req.body else some req.body

abbrev pub ends_with : Bytes → Bytes → Bool
ends_with p [] = equal p []
ends_with p (c ∷ s) = equal p (c ∷ s) || ends_with p s

abbrev pub contains : Bytes → Bytes → Bool
contains p [] = is_some (starts_with p [])
contains p (c ∷ s) = is_some (starts_with p (c ∷ s)) || contains p s

-- `routeOf`: whether it is `routeStore`.
unfoldable pub is_store_route : Request → Bool
unfolding equal starts_with
is_store_route req = ends_with (codes "/store") req.resource || contains (codes "/store/") req.path

-- `contentEncoding`
unfoldable pub content_encoding : Request → Bytes
unfolding value_of is_empty
content_encoding req =
    let v = value_of (codes "Content-Encoding") req.headers in
    if not (is_empty v) then v else value_of (codes "content-encoding") req.headers

-- A request that is let in: its body, its key and its project.
pub record Admission : Type 0 where
  pub body : Bytes
  pub key : Bytes
  pub project_id : Bytes

-- What is to be stored of a request.
pub record Content : Type 0 where
  pub raw : Bytes
  pub items : List Item

module _ (service : Service) where
  abbrev pub bad_request : Bytes → Response
  bad_request = respond_bad_request service.setup.json

  abbrev pub unauthorized : Response
  unauthorized = respond_unauthorized service.setup.json

  -- Step 1: the body, under the cap where there is one.
  abbrev pub is_over : Bytes → Bool
  is_over body =
      ltb 0 service.setup.max_body_bytes && ltb service.setup.max_body_bytes (length body)

  abbrev pub capped : Option Bytes → Result Response Bytes
  capped none = err (bad_request (codes "request body is not valid base64"))
  capped (some body) =
      if is_over body then err (bad_request (codes "payload exceeds maximum size")) else ok body

  unfoldable pub read_body : Request → Result Response Bytes
  read_body req = capped (decode_body service.base64 req)

  -- Step 2: the forms must agree, one must be there, and the key must not be empty.
  abbrev pub key_of_auth : Option AuthInfo → Result Response Bytes
  key_of_auth none = err unauthorized
  key_of_auth (some auth) =
      if not auth.present
      then err (respond_forbidden service.setup.json)
      else if is_empty auth.key
      then err unauthorized
      else ok auth.key

  -- The answer of the registry on the key.
  abbrev pub admission : Admission → Result Bytes Bool → Result Response Admission
  admission a (err e) = err (respond_json service.setup.json 500 (codes "key validation failed"))
  admission a (ok false) = err unauthorized
  admission a (ok true) = ok a

  abbrev pub checked_key : Bytes → Bytes → Bytes → Result Response Admission
  checked_key body key project_id =
      admission (record { body = body; key = key; project_id = project_id })
        (validate_key service.get_project project_id key)

  unfoldable pub admit : Request → Result Response Admission
  admit req = do
    body ← read_body req
    key ← key_of_auth (extract_auth_key service.setup.json req body)
    checked_key body key (project_id_of service.setup.json req body)

  -- Step 5: one event on the store route, an envelope otherwise.
  abbrev pub store_content : Bytes → Content
  store_content body = record {
    raw = body;
    items =
        record { header = record { type = event_type; length = none; raw = [] }; payload = body }
        ∷ [];
  }

  abbrev pub parsed : Bytes → Result EnvelopeError Envelope → Result Response Content
  parsed body (err e) =
      err (bad_request (codes "invalid envelope: " ++ envelope_error_text service.quoting e))
  parsed body (ok env) = ok (record { raw = body; items = env.items })

  abbrev pub routed : Bool → Bytes → Result Response Content
  routed true body = ok (store_content body)
  routed false body = parsed body (parse_envelope service.setup.json body)

  abbrev pub unpacked : Bool → Result DecompressError Bytes → Result Response Content
  unpacked route (err e) =
      err (bad_request (codes "decompression failed: " ++ decompress_error_text service.quoting e))
  unpacked route (ok body) = routed route body

  -- Steps 4 and 5.
  unfoldable pub content_of : Request → Bytes → Result Response Content
  content_of req body =
      unpacked (is_store_route req)
        (decompress_body service.codecs (content_encoding req) body service.setup.max_body_bytes)

  -- Step 6, and the response.
  abbrev pub after_persist : Bytes → World → Bool × Store → Response × World
  after_persist id w (good, st) = (
    if good
        then respond_id service.setup.json id
        else respond_json service.setup.json 500 (codes "persistence failed"),
    record w { store = st },
  )

  -- The id under which the request is stored, and the call of `persist`.
  abbrev pub id_of : Content → Bytes
  id_of c = chosen_id service.setup.json service.setup.sha256 c.raw c.items

  abbrev pub persisted : Faults → ℕ → Admission → Content → Store → Bool × Store
  persisted faults now a c st =
      persist service.setup faults
        (record { project_id = a.project_id; event_id = id_of c; now = now }) c.raw c.items st

  unfoldable pub keep : Faults → ℕ → Admission → World → Result Response Content → Response × World
  keep faults now a w (err r) = (r, w)
  keep faults now a w (ok c) = after_persist (id_of c) w (persisted faults now a c w.store)

  -- Step 3: the time to wait where the limiter denies the request, and the limiter.
  unfoldable pub take_turn : Option RateLimiter → Bytes → ℕ → Option ℕ × Option RateLimiter
  take_turn none key now = (none, none)
  take_turn (some rl) key now =
      let (d, rl') = allow rl key now in (if d.allowed then none else some d.retry_after, some rl')

  unfoldable pub after_turn : Faults → ℕ → Request → Admission → World → Option ℕ → Response × World
  after_turn faults now req a w (some wait) = (respond_rate_limited service.setup.json wait, w)
  after_turn faults now req a w none = keep faults now a w (content_of req a.body)

  unfoldable pub after_admit :
      Faults → ℕ → Request → World → Result Response Admission → Response × World
  after_admit faults now req w (err r) = (r, w)
  after_admit faults now req w (ok a) =
      let (wait, limiter) = take_turn w.limiter a.key now in
      after_turn faults now req a (record w { limiter = limiter }) wait

  -- `handleRequest` at the time `now`.
  unfoldable pub handle_request : Faults → ℕ → Request → World → Response × World
  handle_request faults now req w = after_admit faults now req w (admit req)
