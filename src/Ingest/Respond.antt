-- ===== src/Ingest/Respond.antt =====
-- The responses of lambda/ingest/main.go.
use serverless_error_ingest.Http.{Response}
use serverless_error_ingest.Json.{Json}
use serverless_error_ingest.Decimal.{decimal}
use serverless_error_ingest.Ingest.RateLimit.{second}
use serverless_error_ingest.Base.{ℕ, ◌/◌, List, [], ◌∷◌, Bytes, codes}

abbrev pub allow_origin : Bytes
allow_origin = codes "Access-Control-Allow-Origin"

abbrev pub any_origin : Bytes
any_origin = codes "*"

-- `corsHeaders`
abbrev pub cors_headers : List (Bytes × Bytes)
cors_headers = (allow_origin, any_origin) ∷ []

module _ (json : Json) where
  -- `respondJSONWithHeaders`
  unfoldable pub respond_json_with_headers : ℕ → Bytes → List (Bytes × Bytes) → Response
  respond_json_with_headers status message headers = record {
    status = status;
    headers = headers;
    body = json.detail message;
  }

  -- `respondJSON` as the handler calls it: with a status other than 200, a message, and no headers.
  unfoldable pub respond_json : ℕ → Bytes → Response
  respond_json status message = record {
    status = status;
    headers = cors_headers;
    body = json.detail message;
  }

  -- `respondID`
  unfoldable pub respond_id : Bytes → Response
  respond_id event_id = record {
    status = 200;
    headers = (codes "Content-Type", codes "application/json") ∷ cors_headers;
    body = json.id event_id;
  }

  -- `respondBadRequest`
  unfoldable pub respond_bad_request : Bytes → Response
  unfolding respond_json_with_headers
  respond_bad_request message =
      respond_json_with_headers 400 message ((codes "X-Sentry-Error", message) ∷ cors_headers)

  -- `respondUnauthorized`
  unfoldable pub respond_unauthorized : Response
  unfolding respond_json_with_headers
  respond_unauthorized =
      respond_json_with_headers 401 (codes "invalid sentry public key") cors_headers

  -- `respondForbidden`
  unfoldable pub respond_forbidden : Response
  unfolding respond_json_with_headers
  respond_forbidden = respond_json_with_headers 403 (codes "missing authentication") cors_headers

  -- `respondRateLimited`: whole seconds, rounded down.
  unfoldable pub respond_rate_limited : ℕ → Response
  unfolding respond_json_with_headers decimal
  respond_rate_limited retry_after =
      respond_json_with_headers 429 (codes "rate limit exceeded")
        ((codes "Retry-After", decimal (retry_after / second)) ∷ cors_headers)
