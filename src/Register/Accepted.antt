-- ===== src/Register/Accepted.antt =====
-- The registration of scripts/register against the DSN parsers and the registry of lambda/ingest.
use mathlib.Core.Path.{subst}
use mathlib.Core.List.{cons-ne-nil}
use serverless_error_ingest.Http.{lookup}
use serverless_error_ingest.Text.{Lacks}
use serverless_error_ingest.Ingest.Auth.{public_key_from_dsn}
use serverless_error_ingest.Ingest.Project.{project_id_of_dsn}
use serverless_error_ingest.Ingest.Dsn.{
  Dsn, IsDsn, render_dsn, public_key_from_dsn-render, project_id_of_dsn-render,
}
use serverless_error_ingest.Ingest.EventId.{hex_encode, hex_digit}
use serverless_error_ingest.Ingest.Registry.{ProjectRow, GetProject, validate_key}
use serverless_error_ingest.Ingest.Handler.Admitted.{validate_key-IsRegistered}
use serverless_error_ingest.Register.{
  Flags, Supplies, RegisterError, no_public_key, no_secret_key, project_missing, host_missing,
  rand_key, dsn_of, Registration, written, registration, present, register,
}
use serverless_error_ingest.Base.{
  ℕ, ◌/◌, ◌%◌, ◌<◌, ◌≡◌, refl, sym, ap, ◌∙◌, ◌≢◌, ◌⊎◌, inl, inr, Bool, true, false, none, some,
  List, [], ◌∷◌, ◌++◌, append-nil, arith, if◌then◌else◌, Bool-cases, Bytes, codes, equal_iff,
  is_empty, Result, ok, err, map_err, bind-ok, length, All,
}

-- The registry as its table answers.
abbrev pub answers : List (Bytes × ProjectRow) → GetProject
answers table id = ok (lookup id table)

-- The script's random bytes: sixteen of them.
abbrev pub AreRandom : Result Bytes Bytes → Type 0
AreRandom (err e) = Unit
AreRandom (ok buf) = (length buf ≡ 16) × All (λ c. c < 256) buf

hex_digit-other : (c n : ℕ) → (c ≡ b':') ⊎ (c ≡ b'@') → n < 16 → hex_digit n ≢ c
hex_digit-other c n h b e = ground arith

hex_encode-Lacks :
    (c : ℕ) (s : Bytes) → (c ≡ b':') ⊎ (c ≡ b'@') → All (λ x. x < 256) s → Lacks c (hex_encode s)
unfolding hex_encode
hex_encode-Lacks c [] h k = tt
hex_encode-Lacks c (x ∷ s) h (b, k) = (
  hex_digit-other c (x / 16) h (omega arith),
  (hex_digit-other c (x % 16) h (omega arith), hex_encode-Lacks c s h k),
)

hex_encode-ne-nil : (s : Bytes) → length s ≡ 16 → hex_encode s ≢ []
unfolding hex_encode
hex_encode-ne-nil [] h e = omega arith
hex_encode-ne-nil (x ∷ s) h e = cons-ne-nil _ _ e

-- The DSN that is printed, as a DSN of the documented form.
abbrev printed : Bytes → Bytes → Bytes → Dsn
printed public_key host project_id = record {
  protocol = codes "https";
  public_key = public_key;
  secret_key = none;
  host_path = host;
  project_id = project_id;
}

printed-render : (k host p : Bytes) → render_dsn (printed k host p) ≡ dsn_of k host p
unfolding render_dsn
printed-render k host p =
    ap (λ u. codes "https://" ++ (u ++ (b'@' ∷ (host ++ (b'/' ∷ p))))) (append-nil k)

printed-IsDsn :
    (buf host p : Bytes)
    → length buf ≡ 16
    → All (λ c. c < 256) buf
    → Lacks b'/' p
    → IsDsn (printed (hex_encode buf) host p)
printed-IsDsn buf host p long small plain = record {
  protocol_plain = omega arith;
  key_given = hex_encode-ne-nil buf long;
  key_plain = hex_encode-Lacks b':' buf (inl refl) small;
  user_plain =
      subst (λ u. Lacks b'@' u) (sym (append-nil (hex_encode buf)))
        (hex_encode-Lacks b'@' buf (inr refl) small);
  id_plain = plain;
}

-- What a registration is for: the DSN gives back the key and the project, and the registry lets them in.
pub record IsLetIn (out : Registration) : Type 0 where
  pub key : public_key_from_dsn out.dsn ≡ ok out.row.public_key
  pub project : project_id_of_dsn out.dsn ≡ out.row.project_id
  pub admitted : validate_key (answers out.table) out.row.project_id out.row.public_key ≡ ok true

is_empty_ne : (s : Bytes) → s ≢ [] → is_empty s ≡ false
unfolding is_empty
is_empty_ne [] ne = absurd (ne refl)
is_empty_ne (c ∷ s) ne = refl

present-full : (s : Bytes) (e : RegisterError) (b : Bool) → present s e ≡ ok b → is_empty s ≡ false
present-full s e b h = elim (Bool-cases (is_empty s)) [
  | inl empty ↦ absurd (ground (arith, h))
  | inr full ↦ full
]

registration-IsLetIn :
    (flags : Flags) (buf secret created : Bytes) (table : List (Bytes × ProjectRow))
    → is_empty flags.project_id ≡ false
    → Lacks b'/' flags.project_id
    → length buf ≡ 16
    → All (λ c. c < 256) buf
    → IsLetIn (registration flags (hex_encode buf) secret created table)
unfolding lookup
registration-IsLetIn flags buf secret created table given plain long small =
    let k = hex_encode buf in
    let d = printed k flags.host flags.project_id in
    let v = printed-IsDsn buf flags.host flags.project_id long small plain in
    let same = printed-render k flags.host flags.project_id in
    let out = registration flags k secret created table in
    let found : lookup flags.project_id out.table ≡ some out.row =
      rw ((equal_iff flags.project_id flags.project_id).1 refl) refl in
    record {
      key = ap public_key_from_dsn (sym same) ∙ public_key_from_dsn-render d v;
      project = ap project_id_of_dsn (sym same) ∙ project_id_of_dsn-render d v;
      admitted = (validate_key-IsRegistered (answers out.table) flags.project_id k).1 (
        rw (given, is_empty_ne k (hex_encode-ne-nil buf long)) refl,
        record { row = out.row; listed = ap ok found; same_key = refl; is_active = refl },
      );
    }

random-ok :
    (random : Result Bytes Bytes) (key : Bytes)
    → AreRandom random
    → map_err no_public_key (rand_key random) ≡ ok key
    → (buf : Bytes) × (length buf ≡ 16) × (All (λ c. c < 256) buf) × (hex_encode buf ≡ key)
unfolding rand_key
random-ok (err e) key h made = cc
random-ok (ok buf) key (long, small) made = (buf, long, small, cc)

-- Once a project is registered whose id has no slash in it, with a public key made of 16 random bytes,
-- whatever the table held before, the printed DSN gives the ingest handler the project's key and id, and
-- the registry admits them.
pub register-IsLetIn :
    (flags : Flags) (supplies : Supplies) (table : List (Bytes × ProjectRow)) (out : Registration)
    → Lacks b'/' flags.project_id
    → AreRandom supplies.public_bytes
    → register flags supplies table ≡ ok out
    → IsLetIn out
unfolding register
register-IsLetIn flags supplies table out plain random e =
    let (b1, given, e1) = bind-ok (present flags.project_id project_missing) _ out e in
    let (b2, hosted, e2) = bind-ok (present flags.host host_missing) _ out e1 in
    let (k, made, e3) = bind-ok (map_err no_public_key (rand_key supplies.public_bytes)) _ out e2 in
    let (s, secret, e4) =
      bind-ok
        (if flags.with_secret
          then map_err no_secret_key (rand_key supplies.secret_bytes)
          else ok [])
        _ out e3 in
    let (b3, stored, e5) =
      bind-ok (written supplies.write_error)
        (λ b. ok (registration flags k s supplies.created_at table)) out e4 in
    let (buf, long, small, same_key) = random-ok supplies.public_bytes k random made in
    let same : registration flags k s supplies.created_at table ≡ out = cc in
    subst IsLetIn same (
      subst (λ k. IsLetIn (registration flags k s supplies.created_at table)) same_key
        (registration-IsLetIn flags buf s supplies.created_at table
          (present-full flags.project_id project_missing b1 given) plain long small))
