-- ===== src/Query/Limit/Range.antt =====
-- The range of the limit, and what is read from a number.
use serverless_error_ingest.Decimal.{
  decimal, digits, value_from, value_from-digits, IsDigit, digits-IsDigit,
}
use serverless_error_ingest.Query.Limit.{max_limit, clamped, limit_of}
use serverless_error_ingest.Strconv.{int_limit, signed, atoi, atoi_digits}
use serverless_error_ingest.Base.{
  ℕ, zero, suc, ◌≤◌, ◌<◌, ◌≡◌, ap, ◌∙◌, inl, inr, false, Option, none, some, [], ◌∷◌, arith, ltb,
  if◌then◌else◌, Bool-cases, Bytes, is_empty, ℤ, pos, negsuc, All,
}

clamped_range : (z : Option ℤ) (n : ℕ) → clamped z ≡ some n → (1 ≤ n) × (n ≤ 200)
clamped_range none n e = cc
clamped_range (some (negsuc m)) n e = cc
clamped_range (some (pos zero)) n e = cc
clamped_range (some (pos (suc m))) n e = ground arith

-- Whatever text is given, the limit of a query that is made is between 1 and 200.
pub limit_of-range : (v : Bytes) (n : ℕ) → limit_of v ≡ some n → (1 ≤ n) × (n ≤ 200)
unfolding limit_of
limit_of-range v n e = elim (Bool-cases (is_empty v)) [
  | inl empty ↦ ground arith
  | inr full ↦ clamped_range (atoi v) n (ground arith)
]

limit_of_digits :
    (s : Bytes)
    → All IsDigit s
    → 0 < value_from 0 s
    → limit_of s ≡ clamped (signed false (some (value_from 0 s)))
unfolding limit_of is_empty
limit_of_digits [] h lt = absurd (omega arith)
limit_of_digits (c ∷ s) h lt = ap clamped (atoi_digits (c ∷ s) h lt)

clamped_of :
    (n : ℕ)
    → 0 < n
    → n < int_limit
    → clamped (signed false (some n)) ≡ some (if ltb max_limit n then max_limit else n)
clamped_of zero h lt = absurd (omega arith)
clamped_of (suc n) h lt = ground arith

-- A positive limit that fits an int64, written in decimal, is taken as it is up to 200, and as 200 above.
pub limit_of-decimal :
    (n : ℕ)
    → 0 < n
    → n < int_limit
    → limit_of (decimal n) ≡ some (if ltb max_limit n then max_limit else n)
unfolding decimal
limit_of-decimal n h lt =
    let value = value_from-digits (suc n) n (omega arith) in
    limit_of_digits (digits (suc n) n) (digits-IsDigit (suc n) n) (omega (arith, value))
    ∙ ap (λ m. clamped (signed false (some m))) value
    ∙ clamped_of n h lt
