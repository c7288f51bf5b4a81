-- ===== src/Register.antt =====
-- The registration of a project, scripts/register/main.go.
pub mod Accepted
use serverless_error_ingest.Ingest.EventId.{hex_encode}
use serverless_error_ingest.Ingest.Registry.{ProjectRow, active}
use serverless_error_ingest.Base.{
  Bool, true, Option, none, some, List, [], ◌∷◌, ◌++◌, if◌then◌else◌, Bytes, codes, is_empty,
  Result, ok, err, ◌>>=◌, map_err,
}

-- The flags that decide what is registered.
pub record Flags : Type 0 where
  pub project_id : Bytes
  pub host : Bytes
  pub with_secret : Bool

-- What the script asks of the system: sixteen random bytes for either key or an error, the time as text,
-- and the error of writing the row, if there is one.
pub record Supplies : Type 0 where
  pub public_bytes : Result Bytes Bytes
  pub secret_bytes : Result Bytes Bytes
  pub created_at : Bytes
  pub write_error : Option Bytes

-- The exits by `log.Fatal`.
pub data RegisterError : Type 0 where
  project_missing host_missing : RegisterError
  no_public_key no_secret_key not_written : Bytes → RegisterError

-- `randKey`
unfoldable pub rand_key : Result Bytes Bytes → Result Bytes Bytes
unfolding hex_encode
rand_key random = do buf ← random; ok (hex_encode buf)

-- `fmt.Sprintf("https://%s@%s/%s", publicKey, *host, *projectID)`
abbrev pub dsn_of : Bytes → Bytes → Bytes → Bytes
dsn_of public_key host project_id =
    codes "https://" ++ (public_key ++ (b'@' ∷ (host ++ (b'/' ∷ project_id))))

-- What the script leaves and prints.
pub record Registration : Type 0 where
  pub row : ProjectRow
  pub dsn : Bytes
  pub table : List (Bytes × ProjectRow)

abbrev pub written : Option Bytes → Result RegisterError Bool
written none = ok true
written (some e) = err (not_written e)

abbrev pub registration : Flags → Bytes → Bytes → Bytes → List (Bytes × ProjectRow) → Registration
registration flags public_key secret_key created_at table =
    let row : ProjectRow = record {
      project_id = flags.project_id;
      public_key = public_key;
      secret_key = secret_key;
      created_at = created_at;
      status = active;
    } in
    record {
      row = row;
      dsn = dsn_of public_key flags.host flags.project_id;
      table = (flags.project_id, row) ∷ table;
    }

abbrev pub present : Bytes → RegisterError → Result RegisterError Bool
present s e = if is_empty s then err e else ok true

-- `main`, on the registry's table.
unfoldable pub register :
    Flags → Supplies → List (Bytes × ProjectRow) → Result RegisterError Registration
unfolding is_empty rand_key
register flags supplies table = do
  _ ← present flags.project_id project_missing
  _ ← present flags.host host_missing
  public_key ← map_err no_public_key (rand_key supplies.public_bytes)
  secret_key ←
      if flags.with_secret then map_err no_secret_key (rand_key supplies.secret_bytes) else ok []
  _ ← written supplies.write_error
  ok (registration flags public_key secret_key supplies.created_at table)
