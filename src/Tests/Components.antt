-- ===== src/Tests/Components.antt =====
-- The components of the ingest handler on small inputs.
use serverless_error_ingest.Http.{lookup}
use serverless_error_ingest.Ingest.Auth.{
  sentry_key_from_header, sentry_key_from_query, extract_auth_key, public_key_from_dsn,
}
use serverless_error_ingest.Ingest.Auth.Agreement.{
  Disagree, Found, extract_auth_key-none, extract_auth_key-some,
}
use serverless_error_ingest.Ingest.Project.{project_id_of_dsn}
use serverless_error_ingest.Ingest.Dsn.{
  Dsn, IsDsn, render_dsn, public_key_from_dsn-render, project_id_of_dsn-render,
}
use serverless_error_ingest.Ingest.Envelope.{Item}
use serverless_error_ingest.Ingest.Keys.{sanitize_item_type, envelope_key, item_key}
use serverless_error_ingest.Ingest.EventId.{valid_event_id}
use serverless_error_ingest.Decimal.{decimal}
use serverless_error_ingest.Text.{starts_with}
use serverless_error_ingest.Ingest.Keys.Safe.{IsSafe, sanitize_item_type-IsSafe}
use serverless_error_ingest.Base.Int.{◌≤ℤ◌}
use serverless_error_ingest.Ingest.Persist.Expiry.{lifetime, row_of_expires}
use serverless_error_ingest.Ingest.Persist.{
  Setup, row_of, nanos_per_second, half_range, Faults, key_of_envelope, key_of_item, checked,
  persist,
}
use serverless_error_ingest.Ingest.Persist.Outcome.{SomeGoes, persist-ok, persist_failed}
use serverless_error_ingest.Ingest.Persist.Retry.{persist_again}
use serverless_error_ingest.Ingest.Persist.Contents.{persist_item_archived}
use serverless_error_ingest.Ingest.Compress.{
  at_eof, Stream, read_limited, decompress_gzip, decompress_body, first_case,
}
use serverless_error_ingest.Ingest.Compress.Cap.{
  max_int64, IsRead, read_limited-ok, decompress_body-le,
}
use serverless_error_ingest.Tests.Samples.{
  plain_json, setup, codecs, request, no_faults, empty_store, event_item, batch,
}
use serverless_error_ingest.Base.{
  ◌+◌, ◌*◌, ◌/◌, ◌≤◌, ◌<◌, ◌≡◌, refl, ◌↔◌, ◌⊎◌, true, false, none, some, List, [], ◌∷◌, arith,
  Bytes, codes, equal, is_empty, ok, pos, length,
}

-- Persistence.
abbrev two_items : List Item
two_items = event_item (codes "abc") ∷ event_item (codes "def") ∷ []

persist-ok_example :
    ((persist setup no_faults batch (codes "raw") two_items empty_store).0 ≡ true) ↔ (
      (no_faults.object_fails (key_of_envelope setup no_faults (checked setup (codes "raw") batch))
        ≡ false)
      × ((two_items ≡ [])
          ⊎ SomeGoes setup no_faults (checked setup (codes "raw") batch) 0 two_items))
persist-ok_example = persist-ok setup no_faults batch (codes "raw") two_items empty_store

persist_item_archived_example :
    lookup
      (key_of_item setup no_faults (checked setup (codes "raw") batch) 1 (event_item (codes "def")))
      (persist setup no_faults batch (codes "raw") two_items empty_store).1.objects
    ≡ some (codes "def")
persist_item_archived_example =
    persist_item_archived setup no_faults batch (codes "raw") two_items empty_store 1
      (event_item (codes "def")) refl refl refl

-- The second item cannot be archived.
abbrev flaky : Faults
unfolding equal
flaky = record {
  object_fails = λ key. equal key (codes "projects/7/1970-01-01/abc/items/1-event");
  row_fails = λ row. false;
}

abbrev first_key : Bytes
first_key = codes "projects/7/1970-01-01/abc.envelope"

envelope_goes :
    flaky.object_fails (key_of_envelope setup flaky (checked setup (codes "raw") batch)) ≡ false
unfolding equal envelope_key valid_event_id
envelope_goes = refl

second_fails :
    flaky.object_fails
      (key_of_item setup flaky (checked setup (codes "raw") batch) 1 (event_item (codes "def")))
    ≡ true
unfolding equal item_key valid_event_id sanitize_item_type decimal
second_fails = refl

first_goes : flaky.object_fails first_key ≡ false
unfolding equal
first_goes = refl

persist_again_example :
    lookup first_key
      (persist setup no_faults
        (record batch { now = 9 })
        (codes "raw")
        two_items
        (persist setup flaky batch (codes "raw") two_items empty_store).1).1.objects
    ≡ lookup first_key (persist setup flaky batch (codes "raw") two_items empty_store).1.objects
persist_again_example =
    persist_again setup flaky no_faults batch 9 (codes "raw") two_items empty_store first_key refl
      envelope_goes first_goes

abbrev archive_down : Faults
archive_down = record { object_fails = λ key. true; row_fails = λ row. false }

nothing_archived : (persist setup archive_down batch (codes "raw") two_items empty_store).0 ≡ false
unfolding persist
nothing_archived = refl

persist_failed_example :
    (persist setup archive_down batch (codes "raw") two_items empty_store).1.rows ≡ empty_store.rows
persist_failed_example =
    persist_failed setup archive_down batch (codes "raw") two_items empty_store nothing_archived

-- Ids and keys.
sanitize_item_type-IsSafe_example : IsSafe (sanitize_item_type (codes " ../x\\"))
sanitize_item_type-IsSafe_example = sanitize_item_type-IsSafe (codes " ../x\\")

-- Authentication.
extract_auth_key-none_example :
    (extract_auth_key plain_json (request ((codes "sentry_key", codes "k2") ∷ []) []) [] ≡ none)
    ↔ Disagree
        (sentry_key_from_header (request ((codes "sentry_key", codes "k2") ∷ []) []).headers).0
        (sentry_key_from_query (request ((codes "sentry_key", codes "k2") ∷ []) [])).0
extract_auth_key-none_example =
    extract_auth_key-none plain_json (request ((codes "sentry_key", codes "k2") ∷ []) []) []

from_header :
    extract_auth_key plain_json (request [] []) []
    ≡ some (record { present = true; key = codes "k1" })
unfolding extract_auth_key
from_header = refl

extract_auth_key-some_example :
    Found plain_json []
      (sentry_key_from_header (request [] []).headers)
      (sentry_key_from_query (request [] []))
      (record { present = true; key = codes "k1" })
extract_auth_key-some_example = extract_auth_key-some plain_json (request [] []) [] from_header

abbrev dsn : Dsn
dsn = record {
  protocol = codes "https";
  public_key = codes "k1";
  secret_key = some (codes "s1");
  host_path = codes "h.example/api";
  project_id = codes "7";
}

dsn-IsDsn : IsDsn dsn
dsn-IsDsn = record {
  protocol_plain = omega arith;
  key_given = cc;
  key_plain = omega arith;
  user_plain = omega arith;
  id_plain = omega arith;
}

public_key_from_dsn-render_example : public_key_from_dsn (render_dsn dsn) ≡ ok (codes "k1")
public_key_from_dsn-render_example = public_key_from_dsn-render dsn dsn-IsDsn

project_id_of_dsn-render_example : project_id_of_dsn (render_dsn dsn) ≡ codes "7"
project_id_of_dsn-render_example = project_id_of_dsn-render dsn dsn-IsDsn

-- A project id with a slash is not found again in its DSN.
behind_slash : project_id_of_dsn (codes "https://k1@h.example/a/b") ≡ codes "b"
unfolding project_id_of_dsn starts_with
behind_slash = refl

-- Decompression.
abbrev three_bytes : Stream
three_bytes = record { content = codes "abc"; ending = at_eof }

read_limited-ok_example :
    (read_limited three_bytes 3 ≡ ok (codes "abc")) ↔ IsRead three_bytes 3 (codes "abc")
read_limited-ok_example = read_limited-ok three_bytes 3 (codes "abc") (omega arith) (omega arith)

-- With the largest int64 as the cap the limit is negative, and nothing is read.
nothing_read : read_limited three_bytes max_int64 ≡ ok []
unfolding read_limited
nothing_read = refl

gzip_body : decompress_body codecs (codes "GZip ") (codes "abc") 3 ≡ ok (codes "abc")
unfolding decompress_body first_case is_empty equal decompress_gzip
gzip_body = refl

decompress_body-le_example : length (codes "abc") ≤ 3
decompress_body-le_example =
    decompress_body-le codecs (codes "GZip ") (codes "abc") (codes "abc") 3 (omega arith) gzip_body

-- The days to live.
abbrev long_lived : Setup
long_lived = record setup { event_ttl_days = 110000 }

row_of_expires_example :
    ((lifetime 110000 < half_range)
      × ((row_of long_lived no_faults batch 0 (event_item (codes "abc"))).expires_at
          ≡ pos (5 / nanos_per_second + 110000 * 86400)))
    ⊎ ((half_range ≤ lifetime 110000)
        × ((row_of long_lived no_faults batch 0 (event_item (codes "abc"))).expires_at
            ≤ℤ pos (5 / nanos_per_second)))
row_of_expires_example =
    row_of_expires long_lived no_faults batch 0 (event_item (codes "abc")) (omega arith)
      (omega arith)
