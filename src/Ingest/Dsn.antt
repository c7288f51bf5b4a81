-- ===== src/Ingest/Dsn.antt =====
-- The documented form of a DSN, and the two parsers of lambda/ingest/auth.go and main.go on it.
use serverless_error_ingest.Text.{
  Lacks, cut_byte-Lacks, cut_byte-none, after_scheme, starts_with, after_last,
}
use serverless_error_ingest.Ingest.Project.{project_id_of_dsn, behind_at}
use serverless_error_ingest.Ingest.Auth.{
  public_key_from_dsn, key_of_userinfo, strip_scheme, before_colon,
}
use serverless_error_ingest.Base.{
  ℕ, ◌≡◌, refl, ap, ◌∙◌, ◌≢◌, Option, none, some, [], ◌∷◌, ◌++◌, append-nil, arith, Bytes, codes,
  is_empty, ok,
}

-- `{PROTOCOL}://{PUBLIC_KEY}[:{SECRET_KEY}]@{HOST}{PATH}/{PROJECT_ID}`
pub record Dsn : Type 0 where
  pub protocol : Bytes
  pub public_key : Bytes
  pub secret_key : Option Bytes
  pub host_path : Bytes
  pub project_id : Bytes

abbrev pub secret_part : Option Bytes → Bytes
secret_part none = []
secret_part (some k) = b':' ∷ k

abbrev pub userinfo : Dsn → Bytes
userinfo d = d.public_key ++ secret_part d.secret_key

abbrev pub behind_scheme : Dsn → Bytes
behind_scheme d = userinfo d ++ (b'@' ∷ (d.host_path ++ (b'/' ∷ d.project_id)))

unfoldable pub render_dsn : Dsn → Bytes
render_dsn d = d.protocol ++ (codes "://" ++ behind_scheme d)

pub record IsDsn (d : Dsn) : Type 0 where
  pub protocol_plain : Lacks b':' d.protocol
  pub key_given : d.public_key ≢ []
  pub key_plain : Lacks b':' d.public_key
  pub user_plain : Lacks b'@' (userinfo d)
  pub id_plain : Lacks b'/' d.project_id

after_scheme-append : (p r : Bytes) → Lacks b':' p → after_scheme (p ++ (codes "://" ++ r)) ≡ some r
unfolding after_scheme starts_with
after_scheme-append [] r h = refl
after_scheme-append (c ∷ p) r h = ground (arith, after_scheme-append p r h.1)

Lacks-after_last : (c : ℕ) (s : Bytes) → Lacks c s → after_last c s ≡ none
unfolding after_last
Lacks-after_last c [] h = refl
Lacks-after_last c (x ∷ s) h = ground (arith, Lacks-after_last c s h.1)

pub after_last-append : (c : ℕ) (l r : Bytes) → Lacks c r → after_last c (l ++ (c ∷ r)) ≡ some r
unfolding after_last
after_last-append c [] r h = ground (arith, Lacks-after_last c r h)
after_last-append c (x ∷ l) r h = rw (after_last-append c l r h)

before_colon_lem :
    (k : Bytes) (secret : Option Bytes) → Lacks b':' k → before_colon (k ++ secret_part secret) ≡ k
before_colon_lem k none h =
    ap before_colon (append-nil k) ∙ rw (cut_byte-none b':' k h, before_colon) refl
before_colon_lem k (some s) h = rw (cut_byte-Lacks b':' k s h, before_colon) refl

key_of_userinfo_lem :
    (k : Bytes) (secret : Option Bytes)
    → k ≢ []
    → Lacks b':' k
    → key_of_userinfo (k ++ secret_part secret) ≡ ok k
unfolding is_empty
key_of_userinfo_lem [] secret ne h = absurd (ne refl)
key_of_userinfo_lem (c ∷ k) secret ne h = rw (before_colon_lem (c ∷ k) secret h) refl

strip_scheme-render : (d : Dsn) → IsDsn d → strip_scheme (render_dsn d) ≡ behind_scheme d
unfolding render_dsn
strip_scheme-render d v =
    rw (after_scheme-append d.protocol (behind_scheme d) v.protocol_plain, strip_scheme) refl

-- A DSN of the documented form gives back its public key, with or without a secret key.
pub public_key_from_dsn-render :
    (d : Dsn) → IsDsn d → public_key_from_dsn (render_dsn d) ≡ ok d.public_key
unfolding public_key_from_dsn
public_key_from_dsn-render d v =
    rw
      (
        strip_scheme-render d v,
        cut_byte-Lacks b'@' (userinfo d) _ v.user_plain,
        public_key_from_dsn,
      )
      (key_of_userinfo_lem d.public_key d.secret_key v.key_given v.key_plain)

-- It gives back its project id, whatever path stands before it.
pub project_id_of_dsn-render : (d : Dsn) → IsDsn d → project_id_of_dsn (render_dsn d) ≡ d.project_id
unfolding project_id_of_dsn
project_id_of_dsn-render d v =
    rw
      (
        strip_scheme-render d v,
        cut_byte-Lacks b'@' (userinfo d) _ v.user_plain,
        behind_at,
        after_last-append b'/' d.host_path d.project_id v.id_plain,
        project_id_of_dsn,
      )
      refl
