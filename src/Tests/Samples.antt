-- ===== src/Tests/Samples.antt =====
-- A decoder to run the model with: a header line that begins with a digit declares that length,
-- `-` a negative one, and `!` is malformed; an event's payload is its id.
use serverless_error_ingest.Json.{Json, ItemHeader}
use serverless_error_ingest.Http.{Request}
use serverless_error_ingest.Ingest.Envelope.{Item}
use serverless_error_ingest.Ingest.EventId.{IsHash, event_type}
use serverless_error_ingest.Ingest.Persist.{Store, Faults, Setup, Calendar, Batch}
use serverless_error_ingest.Ingest.Compress.{Stream, at_eof, Codecs}
use serverless_error_ingest.Ingest.Registry.{ProjectRow, GetProject, active}
use serverless_error_ingest.Ingest.Handler.{Service, World}
use serverless_error_ingest.Base.{
  ℕ, zero, suc, ◌-◌, ◌<◌, refl, false, ◌&&◌, Option, none, some, List, [], ◌∷◌, ◌++◌, arith, leb,
  ◌==◌, if◌then◌else◌, Bytes, codes, Result, ok, err, ℤ, pos, negsuc, replicate, All,
}

abbrev sized : Bytes → Option ℤ → ItemHeader
sized line n = record { type = line; length = n; raw = [] }

abbrev decode_item : Bytes → Result Bytes ItemHeader
decode_item [] = err (codes "unexpected end of JSON input")
decode_item (c ∷ s) =
    if c == b'!'
    then err (codes "invalid character")
    else if c == b'-'
    then ok (sized s (some (negsuc 0)))
    else if leb b'0' c && leb c b'9'
    then ok (sized s (some (pos (c - b'0'))))
    else ok (sized (c ∷ s) none)

abbrev pub plain_json : Json
plain_json = record {
  envelope_header = λ line. ok (record { dsn = line; raw = [] });
  item_header = decode_item;
  event_meta = λ p. record { event_id = p; timestamp = []; level = []; platform = [] };
  detail = λ s. codes "{\"detail\":\"" ++ (s ++ codes "\"}");
  id = λ s. codes "{\"id\":\"" ++ (s ++ codes "\"}");
}

-- Thirty-two bytes, whatever is hashed.
abbrev pub zero_hash : Bytes → Bytes
zero_hash raw = replicate 32 0

zero_bytes : (n : ℕ) → All (λ c. c < 256) (replicate n 0)
zero_bytes zero = tt
zero_bytes (suc n) = (omega arith, zero_bytes n)

pub zero_hash-IsHash : IsHash zero_hash
zero_hash-IsHash = record { digest_length = λ raw. refl; digest_bytes = λ raw. zero_bytes 32 }

abbrev pub calendar : Calendar
calendar = record {
  date = λ now. codes "1970-01-01";
  rfc3339 = λ now. codes "1970-01-01T00:00:00Z";
}

abbrev pub setup : Setup
setup = record {
  json = plain_json;
  calendar = calendar;
  sha256 = zero_hash;
  max_body_bytes = 20;
  event_ttl_days = 90;
}

abbrev whole : Bytes → Stream
whole s = record { content = s; ending = at_eof }

-- Codecs that change nothing.
abbrev pub codecs : Codecs
codecs = record {
  gzip = λ s. ok (whole s);
  zlib = λ s. ok (whole s);
  flate = whole;
  brotli = whole;
  zstd = λ s. ok (whole s);
  unicode_lower = λ s. s;
}

abbrev pub project : ProjectRow
project = record {
  project_id = codes "7";
  public_key = codes "k1";
  secret_key = [];
  created_at = [];
  status = active;
}

-- A registry of one project.
abbrev pub get_project : GetProject
get_project id = ok (some project)

abbrev pub service : Service
service = record {
  setup = setup;
  codecs = codecs;
  base64 = λ s. none;
  get_project = get_project;
  quoting = record { quote = λ s. s; quote_byte = λ c. c ∷ [] };
}

-- A request to the store route with the key in the header and, where one is given, in the query.
abbrev pub request : List (Bytes × Bytes) → Bytes → Request
request query body = record {
  headers = (codes "X-Sentry-Auth", codes "Sentry sentry_key=k1") ∷ [];
  query = query;
  multi_query = [];
  path_parameters = (codes "project_id", codes "7") ∷ [];
  resource = codes "/store";
  path = [];
  body = body;
  is_base64 = false;
}

abbrev pub no_faults : Faults
no_faults = record { object_fails = λ key. false; row_fails = λ row. false }

abbrev pub empty_store : Store
empty_store = record { objects = []; rows = [] }

abbrev pub world : World
world = record { store = empty_store; limiter = none }

abbrev pub event_item : Bytes → Item
event_item payload = record {
  header = record { type = event_type; length = none; raw = [] };
  payload = payload;
}

abbrev pub batch : Batch
batch = record { project_id = codes "7"; event_id = codes "abc"; now = 5 }
