-- ===== src/Ingest/Project.antt =====
-- `projectIDOf` and `dsnProjectID` of lambda/ingest/main.go.
use serverless_error_ingest.Http.{Request, value_of}
use serverless_error_ingest.Json.{Json}
use serverless_error_ingest.Text.{cut_byte, after_scheme, after_last}
use serverless_error_ingest.Ingest.Auth.{strip_scheme, first_line, header_dsn}
use serverless_error_ingest.Base.{not, none, some, [], if◌then◌else◌, Bytes, codes, is_empty}

-- `if at := strings.IndexByte(dsn, '@'); at >= 0 { dsn = dsn[at+1:] }`
abbrev pub behind_at : Bytes → Bytes
behind_at s = elim (cut_byte b'@' s) [ none ↦ s | some (l, r) ↦ r ]

-- The part of a DSN behind its last slash.
unfoldable pub project_id_of_dsn : Bytes → Bytes
unfolding after_scheme cut_byte after_last
project_id_of_dsn dsn = elim (after_last b'/' (behind_at (strip_scheme dsn))) [
  | none ↦ []
  | some r ↦ r
]

module _ (json : Json) where
  unfoldable pub dsn_project_id : Bytes → Bytes
  unfolding is_empty first_line project_id_of_dsn
  dsn_project_id body = if is_empty body then [] else elim (header_dsn json (first_line body)) [
    | none ↦ []
    | some dsn ↦ if is_empty dsn then [] else project_id_of_dsn dsn
  ]

  -- The path parameter is authoritative; the body's DSN stands in where it is missing or empty.
  unfoldable pub project_id_of : Request → Bytes → Bytes
  unfolding value_of is_empty dsn_project_id
  project_id_of req body =
      let pid = value_of (codes "project_id") req.path_parameters in
      if not (is_empty pid) then pid else dsn_project_id body
