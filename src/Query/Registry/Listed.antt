-- ===== src/Query/Registry/Listed.antt =====
-- Whom the query handler lets in, and that the ingest handler lets in the same.
use serverless_error_ingest.Ingest.Registry.{ProjectRow, GetProject, active}
use serverless_error_ingest.Ingest.Registry
use serverless_error_ingest.Query.Registry.{KeyRow, GetKeyRow, key_row_admits, validate_key}
use serverless_error_ingest.Base.{
  ◌≡◌, refl, inl, inr, true, ◌||◌, Option, none, some, arith, Bool-cases, Bytes, equal_iff,
  is_empty, Result, ok, err, ◌>>=◌, bind-ok,
}

-- The registry has an active project of this id with this key.
pub record IsListed (get_row : GetKeyRow) (project_id key : Bytes) : Type 0 where
  pub row : KeyRow
  pub listed : get_row project_id ≡ ok (some row)
  pub same_key : row.public_key ≡ key
  pub is_active : row.status ≡ active

found-IsListed :
    (get_row : GetKeyRow) (project_id key : Bytes) (found : Option KeyRow)
    → get_row project_id ≡ ok found
    → key_row_admits key found ≡ true
    → IsListed get_row project_id key
unfolding key_row_admits
found-IsListed get_row project_id key none listed h = cc
found-IsListed get_row project_id key (some row) listed h = record {
  row = row;
  listed = listed;
  same_key = (equal_iff row.public_key key).0 (ground arith);
  is_active = (equal_iff row.status active).0 (ground arith);
}

pub validate_key-IsListed :
    (get_row : GetKeyRow) (project_id key : Bytes)
    → validate_key get_row project_id key ≡ ok true
    → IsListed get_row project_id key
unfolding validate_key
validate_key-IsListed get_row project_id key h =
    elim (Bool-cases (is_empty project_id || is_empty key)) [
      | inl empty ↦ cc (rw empty at h)
      | inr full ↦
          let (found, listed, admits) =
            bind-ok (get_row project_id) (λ row. ok (key_row_admits key row)) true (rw full at h) in
          found-IsListed get_row project_id key found listed (cc)
    ]

-- One table as both handlers decode it: the same row with its two fields, or no row, or an error.
pub data Mirrors : Result Bytes (Option ProjectRow) → Result Bytes (Option KeyRow) → Type 0 where
  failed : (e : Bytes) → Mirrors (err e) (err e)
  missing : Mirrors (ok none) (ok none)
  found :
      (r : ProjectRow)
      → Mirrors (ok (some r)) (ok (some (record { public_key = r.public_key; status = r.status })))

looked_up :
    (key : Bytes) (r : Result Bytes (Option ProjectRow)) (s : Result Bytes (Option KeyRow))
    → Mirrors r s
    → (do row ← s; ok (key_row_admits key row)) ≡ (do row ← r; ok (Registry.row_admits key row))
unfolding key_row_admits Registry.row_admits
looked_up key r s (failed e) = refl
looked_up key r s missing = refl
looked_up key r s (found row) = refl

-- Both handlers let in the same keys: on one table, which each decodes into its own row type, the query
-- handler's check of a key gives what the ingest handler's gives, errors included.
pub validate_key-Mirrors :
    (get_project : GetProject) (get_row : GetKeyRow) (project_id key : Bytes)
    → Mirrors (get_project project_id) (get_row project_id)
    → validate_key get_row project_id key ≡ Registry.validate_key get_project project_id key
unfolding validate_key Registry.validate_key
validate_key-Mirrors get_project get_row project_id key same =
    elim (Bool-cases (is_empty project_id || is_empty key)) [
      | inl empty ↦ rw empty refl
      | inr full ↦ rw full (looked_up key (get_project project_id) (get_row project_id) same)
    ]
