-- ===== src/Ingest/Lambda.antt =====
-- lambda/ingest/entry.go: the process that serves requests, as steps on what outlives them.
pub mod Stored
pub mod Sound
pub mod Limited
pub mod Writes
pub mod Concurrent
use serverless_error_ingest.Http.{Request, Response, lookup}
use serverless_error_ingest.Ingest.EventId.{valid_event_id}
use serverless_error_ingest.Ingest.Keys.{sanitize_item_type, sort_key_of, envelope_key, item_key}
use serverless_error_ingest.Ingest.Keys.Safe.{IsSafe}
use serverless_error_ingest.Ingest.Persist.{Store, Faults, EventRow}
use serverless_error_ingest.Ingest.RateLimit.{RateLimiter, new_rate_limiter}
use serverless_error_ingest.Ingest.Registry.{GetProject}
use serverless_error_ingest.Ingest.Handler.{Service, World, handle_request}
use serverless_error_ingest.Ingest.Handler.Admitted.{IsRegistered}
use serverless_error_ingest.Base.{ℕ, none, some, []}

-- A process starts, with a limiter of its own, or handles a request at some time while some calls of the
-- stores fail.
pub data Step (service : Service) : World → World → Type 0 where
  started :
      {w : World} (token rate burst : ℕ)
      → Step service w (record w { limiter = some (new_rate_limiter token rate burst) })
  served :
      {w : World} (faults : Faults) (now : ℕ) (req : Request)
      → Step service w (handle_request service faults now req w).1

-- What the steps lead to from empty stores.
pub data Reach (service : Service) : World → Type 0 where
  nothing : Reach service (record { store = record { objects = []; rows = [] }; limiter = none })
  next : {w v : World} → Reach service w → Step service w v → Reach service v
