-- ===== src/Decimal.antt =====
-- `%d` of a number, and the number that digits spell.
use serverless_error_ingest.Text.{Lacks}
use serverless_error_ingest.Base.{
  ℕ, zero, suc, ◌+◌, ◌-◌, ◌*◌, ◌/◌, ◌%◌, ◌≤◌, ◌<◌, ◌≡◌, refl, sym, ap, ◌∙◌, ◌⊎◌, inl, inr, [], ◌∷◌,
  ◌++◌, arith, ltb, if◌then◌else◌, Bool-cases, Bytes, All,
}

-- The digits of `n`, where the rounds are more than `n`.
unfoldable pub digits : ℕ → ℕ → Bytes
digits zero n = []
digits (suc rounds) n =
    let front = digits rounds (n / 10) in
    if ltb n 10 then (b'0' + n) ∷ [] else front ++ ((b'0' + n % 10) ∷ [])

unfoldable pub decimal : ℕ → Bytes
unfolding digits
decimal n = digits (suc n) n

-- The number that digits spell, behind `acc`.
abbrev pub value_from : ℕ → Bytes → ℕ
value_from acc [] = acc
value_from acc (c ∷ s) = value_from (10 * acc + (c - b'0')) s

value_from-append :
    (acc : ℕ) (s : Bytes) (c : ℕ)
    → value_from acc (s ++ (c ∷ [])) ≡ 10 * value_from acc s + (c - b'0')
value_from-append acc [] c = refl
value_from-append acc (x ∷ s) c = value_from-append (10 * acc + (x - b'0')) s c

pub value_from-digits : (rounds n : ℕ) → n < rounds → value_from 0 (digits rounds n) ≡ n
unfolding digits
value_from-digits zero n h = absurd (omega arith)
value_from-digits (suc rounds) n h = ground (
  arith,
  value_from-digits rounds (n / 10),
  value_from-append 0 (digits rounds (n / 10)) (b'0' + n % 10),
)

-- Two numbers are not printed alike.
pub decimal-injective : (m n : ℕ) → decimal m ≡ decimal n → m ≡ n
unfolding decimal
decimal-injective m n e =
    let same = ap (value_from 0) e in
    let pm = value_from-digits (suc m) m (omega arith) in
    let pn = value_from-digits (suc n) n (omega arith) in sym pm ∙ same ∙ pn

abbrev pub IsDigit : ℕ → Type 0
IsDigit c = (b'0' ≤ c) × (c ≤ b'9')

All-concat : (s : Bytes) (c : ℕ) → All IsDigit s → IsDigit c → All IsDigit (s ++ (c ∷ []))
All-concat [] c h d = (d, tt)
All-concat (x ∷ s) c (p, h) d = (p, All-concat s c h d)

pub digits-IsDigit : (rounds n : ℕ) → All IsDigit (digits rounds n)
unfolding digits
digits-IsDigit zero n = tt
digits-IsDigit (suc rounds) n = elim (Bool-cases (ltb n 10)) [
  | inl small ↦ rw small (ground arith)
  | inr big ↦ rw big (All-concat _ _ (digits-IsDigit rounds (n / 10)) (omega arith))
]

-- A byte that is no digit is not in it.
pub decimal-Lacks : (c n : ℕ) → (c < b'0') ⊎ (b'9' < c) → Lacks c (decimal n)
unfolding decimal
decimal-Lacks c n h = go (digits (suc n) n) (digits-IsDigit (suc n) n)
  where
    go : (s : Bytes) → All IsDigit s → Lacks c s
    go [] k = tt
    go (x ∷ s) (d, k) = (λ e. ground arith, go s k)
