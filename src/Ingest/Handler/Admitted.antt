-- ===== src/Ingest/Handler/Admitted.antt =====
-- Whom the ingest handler lets in.
use mathlib.Core.Path.{subst}
use serverless_error_ingest.Http.{Request}
use serverless_error_ingest.Ingest.Auth.{AuthInfo, extract_auth_key}
use serverless_error_ingest.Ingest.Project.{project_id_of}
use serverless_error_ingest.Ingest.Registry.{
  GetProject, ProjectRow, active, row_admits, validate_key,
}
use serverless_error_ingest.Ingest.Handler.{
  Service, World, Admission, read_body, key_of_auth, admission, admit, handle_request,
}
use serverless_error_ingest.Ingest.Persist.{Faults}
use serverless_error_ingest.Ingest.Handler.Kept.{Untouched, handle_request-outcome}
use serverless_error_ingest.Base.{
  ℕ, ◌≡◌, refl, ap, ◌∙◌, ◌↔◌, ◌⊎◌, inl, inr, Bool, true, false, ◌||◌, Option, none, some, [], ◌∷◌,
  arith, Bool-cases, Bytes, equal_iff, is_empty, Result, ok, err, ◌>>=◌, bind-ok,
}

-- The registry has an active project of this id with this key.
pub record IsRegistered (get_project : GetProject) (project_id key : Bytes) : Type 0 where
  pub row : ProjectRow
  pub listed : get_project project_id ≡ ok (some row)
  pub same_key : row.public_key ≡ key
  pub is_active : row.status ≡ active

row_admits-row :
    (key : Bytes) (found : Option ProjectRow)
    → row_admits key found ≡ true
    → (row : ProjectRow) × (found ≡ some row) × (row.public_key ≡ key) × (row.status ≡ active)
unfolding row_admits
row_admits-row key none e = cc
row_admits-row key (some row) e = (
  row,
  refl,
  (equal_iff row.public_key key).0 (ground arith),
  (equal_iff row.status active).0 (ground arith),
)

admits_of :
    (key : Bytes) (r : Result Bytes (Option ProjectRow))
    → (do row ← r; ok (row_admits key row)) ≡ ok true
    → (found : Option ProjectRow) × (r ≡ ok found) × (row_admits key found ≡ true)
admits_of key (err x) e = cc
admits_of key (ok found) e = (found, refl, cc)

row-row_admits :
    (key : Bytes) (row : ProjectRow)
    → row.public_key ≡ key
    → row.status ≡ active
    → row_admits key (some row) ≡ true
unfolding row_admits
row-row_admits key row same is_active =
    let key_test = (equal_iff row.public_key key).1 same in
    let status_test = (equal_iff row.status active).1 is_active in rw (key_test, status_test) refl

lookup-IsRegistered :
    (get_project : GetProject) (project_id key : Bytes)
    → (do row ← get_project project_id; ok (row_admits key row)) ≡ ok true
    → IsRegistered get_project project_id key
lookup-IsRegistered get_project project_id key e =
    let (found, listed, admits) = admits_of key (get_project project_id) e in
    let (row, same, same_key, is_active) = row_admits-row key found admits in
    record { row = row; listed = listed ∙ ap ok same; same_key = same_key; is_active = is_active }

IsRegistered-lookup :
    (get_project : GetProject) (project_id key : Bytes)
    → IsRegistered get_project project_id key
    → (do row ← get_project project_id; ok (row_admits key row)) ≡ ok true
IsRegistered-lookup get_project project_id key v =
    rw (v.listed, row-row_admits key v.row v.same_key v.is_active) refl

-- A key passes for a project exactly where neither is empty and the registry lists the key as that of an
-- active project.
pub validate_key-IsRegistered :
    (get_project : GetProject) (project_id key : Bytes)
    → (validate_key get_project project_id key ≡ ok true)
      ↔ (((is_empty project_id || is_empty key) ≡ false) × IsRegistered get_project project_id key)
unfolding validate_key
validate_key-IsRegistered get_project project_id key =
    elim (Bool-cases (is_empty project_id || is_empty key)) [
      | inl empty ↦ rw empty (λ e. cc, λ h. cc)
      | inr full ↦ rw full (
        λ e. (refl, lookup-IsRegistered get_project project_id key e),
        λ h. IsRegistered-lookup get_project project_id key h.1,
      )
    ]

-- An admitted request: its body, the key of its authentication forms, its project, and the registry's
-- row for both.
pub record IsAdmitted (service : Service) (req : Request) (a : Admission) : Type 0 where
  pub body : read_body service req ≡ ok a.body
  pub authenticated :
      extract_auth_key service.setup.json req a.body ≡ some (record { present = true; key = a.key })
  pub project : a.project_id ≡ project_id_of service.setup.json req a.body
  pub registered : IsRegistered service.get_project a.project_id a.key

module _ (service : Service) (req : Request) where
  from_fields :
      (present : Bool) (k key : Bytes)
      → key_of_auth service (some (record { present = present; key = k })) ≡ ok key
      → ◌≡◌ {A = Option AuthInfo}
          (some (record { present = present; key = k }))
          (some (record { present = true; key = key }))
  unfolding is_empty
  from_fields false k key e = cc
  from_fields true [] key e = cc
  from_fields true (c ∷ s) key e =
      let same : (c ∷ s) ≡ key = cc in
      ap {B = Option AuthInfo} (λ k. some (record { present = true; key = k })) same

  key_of_auth-ok :
      (auth : Option AuthInfo) (key : Bytes)
      → key_of_auth service auth ≡ ok key
      → auth ≡ some (record { present = true; key = key })
  key_of_auth-ok none key e = cc
  key_of_auth-ok (some auth) key e = from_fields auth.present auth.key key e

  admission-ok :
      (a b : Admission) (v : Result Bytes Bool)
      → admission service a v ≡ ok b
      → (v ≡ ok true) × (a ≡ b)
  admission-ok a b (err x) e = cc
  admission-ok a b (ok false) e = cc
  admission-ok a b (ok true) e = (refl, cc)

  pub admit-IsAdmitted : (a : Admission) → admit service req ≡ ok a → IsAdmitted service req a
  unfolding admit
  admit-IsAdmitted a e =
      let (body, read, rest) = bind-ok (read_body service req) _ a e in
      let (key, auth, rest') =
        bind-ok (key_of_auth service (extract_auth_key service.setup.json req body)) _ a rest in
      let project_id = project_id_of service.setup.json req body in
      let (passes, same) =
        admission-ok (record { body = body; key = key; project_id = project_id }) a
          (validate_key service.get_project project_id key) rest' in
      subst (λ a. IsAdmitted service req a) same
        (record {
          body = read;
          authenticated = key_of_auth-ok _ key auth;
          project = refl;
          registered = ((validate_key-IsRegistered service.get_project project_id key).0 passes).1;
        })

-- Whatever is stored of a request, it was admitted: its authentication forms give a key that the registry
-- lists for its project, and that project is active. No other request changes the stores or succeeds.
pub handle_request-authorized :
    (service : Service) (faults : Faults) (now : ℕ) (req : Request) (w : World)
    → Untouched w.store (handle_request service faults now req w)
      ⊎ ((a : Admission) × IsAdmitted service req a)
handle_request-authorized service faults now req w =
    elim (handle_request-outcome service faults now req w) [
      | inl untouched ↦ inl untouched
      | inr k ↦ inr (k.admission, admit-IsAdmitted service req k.admission k.admitted)
    ]
