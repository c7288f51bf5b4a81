-- ===== src/Query/Registry.antt =====
-- `ValidateKey` of lambda/query/main.go, which decodes two fields of the registry's row only.
pub mod Listed
use serverless_error_ingest.Ingest.Registry.{active}
use serverless_error_ingest.Base.{
  Bool, false, ◌&&◌, ◌||◌, Option, none, some, if◌then◌else◌, Bytes, equal, is_empty, Result, ok,
  ◌>>=◌,
}

-- The row as this handler decodes it.
pub record KeyRow : Type 0 where
  pub public_key : Bytes
  pub status : Bytes

-- What the registry's table answers: a row, no row, or an error, of the call or of the decoding.
abbrev pub GetKeyRow : Type 0
GetKeyRow = Bytes → Result Bytes (Option KeyRow)

unfoldable pub key_row_admits : Bytes → Option KeyRow → Bool
unfolding equal
key_row_admits public_key none = false
key_row_admits public_key (some row) = equal row.public_key public_key && equal row.status active

-- `ValidateKey`
unfoldable pub validate_key : GetKeyRow → Bytes → Bytes → Result Bytes Bool
unfolding is_empty key_row_admits
validate_key get_row project_id public_key =
    if is_empty project_id || is_empty public_key
    then ok false
    else (do row ← get_row project_id; ok (key_row_admits public_key row))
