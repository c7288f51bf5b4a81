-- ===== src/Strconv.antt =====
-- `strconv.Atoi`, and the number that it reads from digits.
use serverless_error_ingest.Decimal.{value_from, IsDigit}
use serverless_error_ingest.Base.{
  ℕ, zero, suc, ◌+◌, ◌-◌, ◌*◌, ◌<◌, ◌≡◌, refl, Bool, true, false, ◌&&◌, Option, none, some, [], ◌∷◌,
  arith, ltb, leb, ◌==◌, if◌then◌else◌, Bytes, ℤ, pos, negsuc, All,
}

-- Digits in base ten, behind `acc`.
unfoldable pub digits_value : ℕ → Bytes → Option ℕ
digits_value acc [] = some acc
digits_value acc (c ∷ s) =
    let later = digits_value (10 * acc + (c - b'0')) s in
    if leb b'0' c && leb c b'9' then later else none

-- One digit at least.
unfoldable pub unsigned : Bytes → Option ℕ
unfolding digits_value
unsigned [] = none
unsigned (c ∷ s) = digits_value 0 (c ∷ s)

abbrev pub int_limit : ℕ
int_limit = 9223372036854775808

abbrev pub signed : Bool → Option ℕ → Option ℤ
signed negative none = none
signed false (some n) = if ltb n int_limit then some (pos n) else none
signed true (some zero) = some (pos zero)
signed true (some (suc n)) = if ltb n int_limit then some (negsuc n) else none

-- `strconv.Atoi`: an optional sign and digits, within an int64.
unfoldable pub atoi : Bytes → Option ℤ
unfolding unsigned
atoi [] = none
atoi (c ∷ s) =
    if c == b'-'
    then signed true (unsigned s)
    else if c == b'+'
    then signed false (unsigned s)
    else signed false (unsigned (c ∷ s))

pub digits_value_lem :
    (acc : ℕ) (s : Bytes) → All IsDigit s → digits_value acc s ≡ some (value_from acc s)
unfolding digits_value
digits_value_lem acc [] h = refl
digits_value_lem acc (c ∷ s) (d, h) = ground (arith, digits_value_lem (10 * acc + (c - b'0')) s h)

pub atoi_digits :
    (s : Bytes) → All IsDigit s → 0 < value_from 0 s → atoi s ≡ signed false (some (value_from 0 s))
unfolding atoi unsigned
atoi_digits [] h lt = absurd (omega arith)
atoi_digits (c ∷ s) h lt = ground (arith, digits_value_lem 0 (c ∷ s) h, h.0)
