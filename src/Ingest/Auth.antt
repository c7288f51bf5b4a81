-- ===== src/Ingest/Auth.antt =====
-- lambda/ingest/auth.go: the public key of a request, from the header, the query or the envelope.
pub mod Agreement
use serverless_error_ingest.Http.{Request, lookup, value_of}
use serverless_error_ingest.Json.{Json}
use serverless_error_ingest.Text.{cut_byte, split_byte, trim_space, after_scheme}
use serverless_error_ingest.Base.{
  Bool, true, false, not, ◌&&◌, Option, none, some, List, [], ◌∷◌, if◌then◌else◌, Bytes, codes,
  equal, is_empty, Result, ok, err,
}

-- `authInfo`
pub record AuthInfo : Type 0 where
  pub present : Bool
  pub key : Bytes

-- `firstHeader`: the value of the first name that is there, even an empty one.
unfoldable pub first_header : List (Bytes × Bytes) → List Bytes → Bytes
unfolding lookup
first_header headers [] = []
first_header headers (n ∷ names) = elim (lookup n headers) [
  | some v ↦ v
  | none ↦ first_header headers names
]

-- One part `k=v` of the header; a part with no `=` is passed over.
unfoldable pub add_param : Bytes → List (Bytes × Bytes) → List (Bytes × Bytes)
unfolding trim_space cut_byte
add_param part params = elim (cut_byte b'=' (trim_space part)) [
  | none ↦ params
  | some (k, v) ↦ (trim_space k, trim_space v) ∷ params
]

-- The loop over the parts: a later part hides an earlier one of the same name.
unfoldable pub add_params : List Bytes → List (Bytes × Bytes) → List (Bytes × Bytes)
unfolding add_param
add_params [] params = params
add_params (part ∷ parts) params = add_params parts (add_param part params)

-- `rest = rest[idx+1:]` behind the first space: the scheme name is dropped.
unfoldable pub after_space : Bytes → Bytes
unfolding cut_byte
after_space value = elim (cut_byte b' ' value) [ none ↦ value | some (l, r) ↦ r ]

-- `parseAuthHeaderParams`
unfoldable pub parse_auth_header_params : Bytes → List (Bytes × Bytes)
unfolding after_space split_byte add_params
parse_auth_header_params value = add_params (split_byte b',' (after_space value)) []

abbrev pub sentry_key : Bytes
sentry_key = codes "sentry_key"

abbrev pub auth_header_names : List Bytes
auth_header_names = codes "X-Sentry-Auth" ∷ codes "x-sentry-auth" ∷ []

-- `sentryKeyFromHeader`: the key, and whether the form is present.
unfoldable pub sentry_key_from_header : List (Bytes × Bytes) → Bytes × Bool
unfolding first_header parse_auth_header_params value_of is_empty
sentry_key_from_header headers =
    let value = first_header headers auth_header_names in
    if is_empty value
    then ([], false)
    else (value_of sentry_key (parse_auth_header_params value), true)

abbrev pub first_value : Option (List Bytes) → Bytes
first_value none = []
first_value (some []) = []
first_value (some (v ∷ vs)) = v

-- `sentryKeyFromQuery`
unfoldable pub sentry_key_from_query : Request → Bytes × Bool
unfolding value_of lookup is_empty
sentry_key_from_query req =
    let k = value_of sentry_key req.query in
    let v = first_value (lookup sentry_key req.multi_query) in
    if not (is_empty k) then (k, true) else if not (is_empty v) then (v, true) else ([], false)

-- The errors of `publicKeyFromDSN`.
pub data DsnError : Type 0 where
  no_userinfo_separator empty_userinfo empty_public_key : DsnError

abbrev pub strip_scheme : Bytes → Bytes
strip_scheme dsn = elim (after_scheme dsn) [ none ↦ dsn | some r ↦ r ]

-- `if idx := strings.IndexByte(userinfo, ':'); idx >= 0 { userinfo = userinfo[:idx] }`
abbrev pub before_colon : Bytes → Bytes
before_colon s = elim (cut_byte b':' s) [ none ↦ s | some (l, r) ↦ l ]

abbrev pub key_of_userinfo : Bytes → Result DsnError Bytes
key_of_userinfo u =
    if is_empty u
    then err empty_userinfo
    else if is_empty (before_colon u)
    then err empty_public_key
    else ok (before_colon u)

-- `publicKeyFromDSN`
unfoldable pub public_key_from_dsn : Bytes → Result DsnError Bytes
unfolding after_scheme cut_byte is_empty
public_key_from_dsn dsn = elim (cut_byte b'@' (strip_scheme dsn)) [
  | none ↦ err no_userinfo_separator
  | some (userinfo, host) ↦ key_of_userinfo userinfo
]

-- `line := body; if idx := indexByte(body, '\n'); idx >= 0 { line = body[:idx] }`
unfoldable pub first_line : Bytes → Bytes
unfolding cut_byte
first_line body = elim (cut_byte b'\n' body) [ none ↦ body | some (l, r) ↦ l ]

-- The key of a decoded header's DSN, if it has one.
abbrev pub key_of_dsn : Bytes → Option Bytes
key_of_dsn dsn =
    if is_empty dsn then none else elim (public_key_from_dsn dsn) [ err e ↦ none | ok k ↦ some k ]

-- What the header and the query say, or none on a disagreement.
unfoldable pub combine : Bytes × Bool → Bytes × Bool → Option AuthInfo
unfolding is_empty equal
combine (hk, hp) (qk, qp) =
    let info : AuthInfo =
      if hp then record { present = true; key = hk } else record { present = false; key = [] } in
    if qp
    then (if not (is_empty info.key) && not (is_empty qk) && not (equal info.key qk)
        then none
        else some (record { present = true; key = if is_empty qk then info.key else qk }))
    else some info

module _ (json : Json) where
  -- `unmarshalEnvelopeHeaderLine`, for the DSN.
  abbrev pub header_dsn : Bytes → Option Bytes
  header_dsn line = elim (json.envelope_header line) [ err e ↦ none | ok h ↦ some h.dsn ]

  -- `dsnFromEnvelopeHeader`
  unfoldable pub dsn_from_envelope_header : Bytes → Option Bytes
  unfolding is_empty first_line public_key_from_dsn
  dsn_from_envelope_header body =
      if is_empty body
      then none
      else elim (header_dsn (first_line body)) [ none ↦ none | some dsn ↦ key_of_dsn dsn ]

  -- The third form is looked at only where the other two are missing.
  abbrev pub or_envelope : Bytes → AuthInfo → AuthInfo
  or_envelope body info = if info.present then info else elim (dsn_from_envelope_header body) [
    | none ↦ info
    | some k ↦ record { present = true; key = k }
  ]

  -- `extractAuthKey`; none stands for its one error.
  unfoldable pub extract_auth_key : Request → Bytes → Option AuthInfo
  unfolding sentry_key_from_header sentry_key_from_query combine dsn_from_envelope_header
  extract_auth_key req body =
      elim (combine (sentry_key_from_header req.headers) (sentry_key_from_query req)) [
        | none ↦ none
        | some info ↦ some (or_envelope body info)
      ]
