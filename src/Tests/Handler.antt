-- ===== src/Tests/Handler.antt =====
-- The handler on requests to the store route.
use serverless_error_ingest.Http.{Request}
use serverless_error_ingest.Ingest.Handler.{
  Admission, handle_request, after_admit, admit, read_body, decode_body, after_turn, take_turn,
  keep, content_of, content_encoding, is_store_route,
}
use serverless_error_ingest.Ingest.Auth.{extract_auth_key}
use serverless_error_ingest.Ingest.Respond.{respond_id}
use serverless_error_ingest.Ingest.Registry.{validate_key}
use serverless_error_ingest.Ingest.Project.{project_id_of}
use serverless_error_ingest.Ingest.Compress.{decompress_body, first_case}
use serverless_error_ingest.Ingest.Persist.{persist, persist_items, persist_item}
use serverless_error_ingest.Ingest.Handler.Kept.{Untouched, IsArchived, handle_request-IsArchived}
use serverless_error_ingest.Ingest.Handler.Admitted.{
  IsRegistered, IsAdmitted, validate_key-IsRegistered, handle_request-authorized,
}
use serverless_error_ingest.Ingest.Handler.Answers.{IsAnswer, handle_request-IsAnswer}
use serverless_error_ingest.Tests.Samples.{
  service, request, get_project, no_faults, world, zero_hash-IsHash,
}
use serverless_error_ingest.Base.{
  ℕ, ◌≡◌, refl, ◌↔◌, ◌⊎◌, true, false, ◌||◌, [], ◌∷◌, codes, is_empty, ok,
}

abbrev status_of : Request → ℕ
status_of req = (handle_request service no_faults 5 req world).0.status

accepted : status_of (request [] (codes "abc123")) ≡ 200
unfolding handle_request after_admit admit read_body decode_body extract_auth_key validate_key
    project_id_of after_turn take_turn keep content_of decompress_body first_case content_encoding
    is_store_route persist persist_items persist_item respond_id
accepted = refl

handle_request-IsArchived_example :
    IsArchived service 5
      (request [] (codes "abc123"))
      (handle_request service no_faults 5 (request [] (codes "abc123")) world)
handle_request-IsArchived_example =
    handle_request-IsArchived service no_faults 5 (request [] (codes "abc123")) world
      zero_hash-IsHash accepted

handle_request-authorized_example :
    Untouched world.store (handle_request service no_faults 5 (request [] (codes "abc123")) world)
    ⊎ ((a : Admission) × IsAdmitted service (request [] (codes "abc123")) a)
handle_request-authorized_example =
    handle_request-authorized service no_faults 5 (request [] (codes "abc123")) world

handle_request-IsAnswer_example :
    IsAnswer
      (handle_request service no_faults 5
        (request ((codes "sentry_key", codes "k2") ∷ []) (codes "abc123"))
        world).0
handle_request-IsAnswer_example =
    handle_request-IsAnswer service no_faults 5
      (request ((codes "sentry_key", codes "k2") ∷ []) (codes "abc123")) world

validate_key-IsRegistered_example :
    (validate_key get_project (codes "7") (codes "k1") ≡ ok true) ↔ (
      ((is_empty (codes "7") || is_empty (codes "k1")) ≡ false)
      × IsRegistered get_project (codes "7") (codes "k1"))
validate_key-IsRegistered_example = validate_key-IsRegistered get_project (codes "7") (codes "k1")
