-- ===== src/Ingest/Keys/Safe.antt =====
-- What `sanitizeItemType` keeps out of a key.
use mathlib.Core.List.{cons-ne-nil}
use serverless_error_ingest.Text.{trim_space, Lacks}
use serverless_error_ingest.Ingest.Keys.{underscore, cleaned, replace_special, sanitize_item_type}
use serverless_error_ingest.Base.{
  ℕ, ◌≡◌, refl, ◌≢◌, inl, inr, false, ◌&&◌, [], ◌∷◌, arith, ◌==◌, Bool-cases, Bytes, codes,
  is_empty,
}

-- No two dots stand side by side.
abbrev pub NoDots : Bytes → Type 0
NoDots [] = Unit
NoDots (c ∷ []) = Unit
NoDots (c ∷ d ∷ s) = ¬ ((c ≡ b'.') × (d ≡ b'.')) × NoDots (d ∷ s)

pub record IsSafe (s : Bytes) : Type 0 where
  pub not_empty : s ≢ []
  pub no_slash : Lacks b'/' s
  pub no_backslash : Lacks b'\\' s
  pub no_dots : NoDots s

-- The first byte is a dot only if that of the source is.
abbrev StartsAlike : Bytes → Bytes → Type 0
StartsAlike [] r = r ≡ []
StartsAlike (c ∷ s) [] = ⊥
StartsAlike (c ∷ s) (x ∷ r) = x ≡ b'.' → c ≡ b'.'

record Replaced (s r : Bytes) : Type 0 where
  alike : StartsAlike s r
  slashes : Lacks b'/' r
  backslashes : Lacks b'\\' r
  dots : NoDots r

NoDots-cons : (c : ℕ) (r : Bytes) → c ≢ b'.' → NoDots r → NoDots (c ∷ r)
NoDots-cons c [] ne h = tt
NoDots-cons c (x ∷ r) ne h = (λ p. ne p.0, h)

NoDots-alike :
    (c d : ℕ) (s r : Bytes)
    → (c ≡ b'.' → d ≢ b'.')
    → StartsAlike (d ∷ s) r
    → NoDots r
    → NoDots (c ∷ r)
NoDots-alike c d s [] ne a h = tt
NoDots-alike c d s (x ∷ r) ne a h = (λ p. ne p.0 (a p.1), h)

cleaned_slash : (c : ℕ) → cleaned c ≢ b'/'
cleaned_slash c = ground arith

cleaned_backslash : (c : ℕ) → cleaned c ≢ b'\\'
cleaned_backslash c = ground arith

cleaned_dot : (c : ℕ) → cleaned c ≡ b'.' → c ≡ b'.'
cleaned_dot c e = ground arith

not_both : (c d : ℕ) → (c == b'.' && d == b'.') ≡ false → cleaned c ≡ b'.' → d ≢ b'.'
not_both c d e dot = ground (arith, cleaned_dot c dot)

replace_special-Replaced : (s : Bytes) → Replaced s (replace_special s)
unfolding replace_special
replace_special-Replaced [] = record { alike = refl; slashes = tt; backslashes = tt; dots = tt }
replace_special-Replaced (c ∷ []) = record {
  alike = cleaned_dot c;
  slashes = (cleaned_slash c, tt);
  backslashes = (cleaned_backslash c, tt);
  dots = tt;
}
replace_special-Replaced (c ∷ d ∷ s) =
    let behind = replace_special-Replaced s in
    let next = replace_special-Replaced (d ∷ s) in
    elim (Bool-cases (c == b'.' && d == b'.')) [
      | inl both ↦ rw both (record {
        alike = λ e. absurd (omega arith);
        slashes = (omega arith, behind.slashes);
        backslashes = (omega arith, behind.backslashes);
        dots = NoDots-cons underscore (replace_special s) (omega arith) behind.dots;
      })
      | inr other ↦ rw other (record {
        alike = cleaned_dot c;
        slashes = (cleaned_slash c, next.slashes);
        backslashes = (cleaned_backslash c, next.backslashes);
        dots =
            NoDots-alike (cleaned c) d s (replace_special (d ∷ s)) (not_both c d other) next.alike
              next.dots;
      })
    ]

alike-ne-nil : (s r : Bytes) → is_empty s ≡ false → StartsAlike s r → r ≢ []
unfolding is_empty
alike-ne-nil [] r e a = cc
alike-ne-nil (c ∷ s) [] e a = absurd a
alike-ne-nil (c ∷ s) (x ∷ r) e a = cons-ne-nil x r

unknown-IsSafe : IsSafe (codes "unknown")
unknown-IsSafe = record {
  not_empty = cons-ne-nil _ _;
  no_slash = omega arith;
  no_backslash = omega arith;
  no_dots = omega arith;
}

-- The replaced type of an item is not empty, and holds no slash, no backslash and no `..`.
pub sanitize_item_type-IsSafe : (t : Bytes) → IsSafe (sanitize_item_type t)
unfolding sanitize_item_type
sanitize_item_type-IsSafe t =
    let r = replace_special-Replaced (trim_space t) in
    elim (Bool-cases (is_empty (trim_space t))) [
      | inl empty ↦ rw (empty, sanitize_item_type) unknown-IsSafe
      | inr full ↦
          rw (full, sanitize_item_type)
            (record {
              not_empty = alike-ne-nil (trim_space t) _ full r.alike;
              no_slash = r.slashes;
              no_backslash = r.backslashes;
              no_dots = r.dots;
            })
    ]
