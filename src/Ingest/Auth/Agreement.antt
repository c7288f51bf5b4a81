-- ===== src/Ingest/Auth/Agreement.antt =====
-- The three forms of authentication: when they are refused, and which key is taken.
use serverless_error_ingest.Http.{Request}
use serverless_error_ingest.Json.{Json}
use serverless_error_ingest.Ingest.Auth.{
  AuthInfo, sentry_key_from_header, sentry_key_from_query, combine, or_envelope, extract_auth_key,
  dsn_from_envelope_header,
}
use mathlib.Core.Path.{subst}
use mathlib.Core.List.{cons-ne-nil}
use serverless_error_ingest.Base.{
  ◌≡◌, refl, ap, ◌∙◌, ◌≢◌, ◌↔◌, inl, inr, Bool, true, false, ◌||◌, none, some, List, [], ◌∷◌, arith,
  Bool-cases, Option-cases, Bytes, equal_iff, is_empty,
}

is_empty_nil : (s : Bytes) → is_empty s ≡ true → s ≡ []
unfolding is_empty
is_empty_nil [] e = refl
is_empty_nil (c ∷ s) e = cc

is_empty_full : (s : Bytes) → is_empty s ≡ false → s ≢ []
unfolding is_empty
is_empty_full [] e = cc
is_empty_full (c ∷ s) e = cons-ne-nil c s

-- An absent form carries no key.
header_absent :
    (headers : List (Bytes × Bytes))
    → (sentry_key_from_header headers).1 ≡ false
    → (sentry_key_from_header headers).0 ≡ []
unfolding sentry_key_from_header
header_absent headers = ground arith

query_absent :
    (req : Request) → (sentry_key_from_query req).1 ≡ false → (sentry_key_from_query req).0 ≡ []
unfolding sentry_key_from_query
query_absent req = ground arith

-- The two keys exclude each other.
abbrev pub Disagree : Bytes → Bytes → Type 0
Disagree hk qk = (hk ≢ []) × (qk ≢ []) × (hk ≢ qk)

combine-none :
    (hk qk : Bytes) (hp qp : Bool)
    → (hp ≡ false → hk ≡ [])
    → (qp ≡ false → qk ≡ [])
    → (combine (hk, hp) (qk, qp) ≡ none) ↔ Disagree hk qk
unfolding combine
combine-none (c ∷ h) (d ∷ q) true true ha qa =
    ground (arith, equal_iff (c ∷ h) (d ∷ q), cons-ne-nil c h, cons-ne-nil d q)
combine-none hk qk hp qp ha qa = ground (arith, ha, qa)

-- What the header and the query say together: the key of each that carries one, and the empty key where
-- neither does.
record IsCombined (h q : Bytes × Bool) (info : AuthInfo) : Type 0 where
  given : info.present ≡ h.1 || q.1
  of_header : h.0 ≢ [] → info.key ≡ h.0
  of_query : q.0 ≢ [] → info.key ≡ q.0
  of_neither : h.0 ≡ [] → q.0 ≡ [] → info.key ≡ []

combine-some :
    (hk qk : Bytes) (hp qp : Bool) {info : AuthInfo}
    → (hp ≡ false → hk ≡ [])
    → (qp ≡ false → qk ≡ [])
    → combine (hk, hp) (qk, qp) ≡ some info
    → IsCombined (hk, hp) (qk, qp) info
unfolding combine
combine-some (c ∷ h) (d ∷ q) true true ha qa e = record {
  given = ground arith;
  of_header = ground (arith, equal_iff (c ∷ h) (d ∷ q));
  of_query = ground (arith, equal_iff (c ∷ h) (d ∷ q));
  of_neither = ground arith;
}
combine-some hk qk hp qp ha qa e = record {
  given = ground arith;
  of_header = ground (arith, ha, qa);
  of_query = ground (arith, ha, qa);
  of_neither = ground (arith, ha, qa);
}

-- What is taken from a header form and a query form, each a key and whether it is present. Where one is
-- present the key is that of the forms, the empty one where both keys are empty; where both are missing
-- it is that of the envelope's DSN, and without a DSN nothing is found.
pub data Found (json : Json) (body : Bytes) (h q : Bytes × Bool) (info : AuthInfo) : Type 0 where
  from_form :
      h.1 || q.1 ≡ true
      → info.present ≡ true
      → (h.0 ≢ [] → info.key ≡ h.0)
      → (q.0 ≢ [] → info.key ≡ q.0)
      → (h.0 ≡ [] → q.0 ≡ [] → info.key ≡ [])
      → Found json body h q info
  from_envelope :
      (k : Bytes)
      → h.1 || q.1 ≡ false
      → dsn_from_envelope_header json body ≡ some k
      → info ≡ record { present = true; key = k }
      → Found json body h q info
  no_form :
      h.1 || q.1 ≡ false
      → dsn_from_envelope_header json body ≡ none
      → info ≡ record { present = false; key = [] }
      → Found json body h q info

info_same :
    (info : AuthInfo) (p : Bool) (k : Bytes)
    → info.present ≡ p
    → info.key ≡ k
    → info ≡ record { present = p; key = k }
info_same info p k present key =
    ap (λ present. record { present = present; key = info.key }) present
    ∙ ap (λ key. record { present = p; key = key }) key

module _ (json : Json) (body hk qk : Bytes) (hp qp : Bool) (info : AuthInfo)
    (header : hp ≡ false → hk ≡ []) (query : qp ≡ false → qk ≡ [])
    (both : IsCombined (hk, hp) (qk, qp) info) where
  form-Found : hp || qp ≡ true → Found json body (hk, hp) (qk, qp) (or_envelope json body info)
  form-Found one =
      let present : info.present ≡ true = both.given ∙ one in
      rw present (from_form one refl both.of_header both.of_query both.of_neither)

  envelope-Found : hp || qp ≡ false → Found json body (hk, hp) (qk, qp) (or_envelope json body info)
  envelope-Found neither =
      let absent : info.present ≡ false = both.given ∙ neither in
      let h : hp ≡ false = ground arith in
      let q : qp ≡ false = ground arith in
      elim (Option-cases (dsn_from_envelope_header json body)) [
        | inl no_dsn ↦
            rw (absent, no_dsn)
              (no_form neither no_dsn
                (info_same info false [] absent (both.of_neither (header h) (query q))))
        | inr (k, dsn) ↦ rw (absent, dsn) (from_envelope k neither dsn refl)
      ]

  or_envelope-Found : Found json body (hk, hp) (qk, qp) (or_envelope json body info)
  or_envelope-Found = elim (Bool-cases (hp || qp)) [
    | inl one ↦ form-Found one
    | inr neither ↦ envelope-Found neither
  ]

-- `extractAuthKey` fails exactly when the header and the query carry keys, none empty, that differ.
pub extract_auth_key-none :
    (json : Json) (req : Request) (body : Bytes)
    → (extract_auth_key json req body ≡ none)
      ↔ Disagree (sentry_key_from_header req.headers).0 (sentry_key_from_query req).0
unfolding extract_auth_key
extract_auth_key-none json req body =
    let both = combine-none _ _ _ _ (header_absent req.headers) (query_absent req) in
    (λ e. both.0 (ground arith), λ d. rw (both.1 d, extract_auth_key) refl)

-- Where the header or the query is present, the key taken is that of each that carries one, and the empty
-- key where neither does, whatever the envelope says. Where both are missing it is that of the envelope's
-- DSN, and where there is none either, no form is found.
pub extract_auth_key-some :
    (json : Json) (req : Request) (body : Bytes) {info : AuthInfo}
    → extract_auth_key json req body ≡ some info
    → Found json body (sentry_key_from_header req.headers) (sentry_key_from_query req) info
unfolding extract_auth_key
extract_auth_key-some json req body {info} e =
    let h = sentry_key_from_header req.headers in
    let q = sentry_key_from_query req in
    elim (Option-cases (combine h q)) [
      | inl n ↦ absurd (ground arith)
      | inr (i, s) ↦
          let same : or_envelope json body i ≡ info = ground arith in
          subst (Found json body h q) same (
            or_envelope-Found json body h.0 q.0 h.1 q.1 i (header_absent req.headers)
              (query_absent req)
              (combine-some h.0 q.0 h.1 q.1 (header_absent req.headers) (query_absent req) s))
    ]
