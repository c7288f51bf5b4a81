-- ===== src/Ingest/Registry.antt =====
-- `ValidateKey` of lambda/ingest/store.go: the projects registry.
use serverless_error_ingest.Base.{
  Bool, false, ◌&&◌, ◌||◌, Option, none, some, if◌then◌else◌, Bytes, codes, equal, is_empty, Result,
  ok, ◌>>=◌,
}

-- `projectRow`
pub record ProjectRow : Type 0 where
  pub project_id : Bytes
  pub public_key : Bytes
  pub secret_key : Bytes
  pub created_at : Bytes
  pub status : Bytes

-- What the registry's table answers: a row, no row, or an error, of the call or of the decoding.
abbrev pub GetProject : Type 0
GetProject = Bytes → Result Bytes (Option ProjectRow)

abbrev pub active : Bytes
active = codes "active"

-- `row.PublicKey == publicKey && row.Status == "active"`
unfoldable pub row_admits : Bytes → Option ProjectRow → Bool
unfolding equal
row_admits public_key none = false
row_admits public_key (some row) = equal row.public_key public_key && equal row.status active

-- `ValidateKey`
unfoldable pub validate_key : GetProject → Bytes → Bytes → Result Bytes Bool
unfolding is_empty row_admits
validate_key get_project project_id public_key =
    if is_empty project_id || is_empty public_key
    then ok false
    else (do row ← get_project project_id; ok (row_admits public_key row))
